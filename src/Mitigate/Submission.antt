-- ===== src/Mitigate/Submission.antt =====
-- What the dialog of frontend/components/dashboard/mitigate-now-dialog.tsx sends.
use prefixd.Base.{
  ◌≤◌, true, false, not, ◌&&◌, ◌||◌, Option, none, some, List, [], ◌∷◌, length, All, is_some, arith,
  ◌≡◌, ◌≢◌, ◌⊎◌, refl, Bool-cases, Option-cases, inl, inr,
}
use prefixd.Base.Text.{Text, codes, same_refl, truthy}
use prefixd.Base.Numbers.{Number, nan, infinity, finite, is_nan, at_least, at_most, IsBetween}
use prefixd.Api.Types.{IngestEventRequest}
use prefixd.Api.Endpoints.{ingest_event}
use prefixd.Mitigate.{
  MitigateDialog, parse_ports, is_valid, event_of, number_or_null, handle_submit, click_submit,
}
use prefixd.Mitigate.Addresses.{IsAddress, is_valid_ipv4_iff}
use prefixd.Mitigate.Ports.{parse_ports-IsBetween}

-- `null`, or a number with the property.
abbrev pub IsNullOr : (Number → Type 0) → Option (Option Number) → Type 0
IsNullOr P none = ⊥
IsNullOr P (some none) = Unit
IsNullOr P (some (some x)) = P x

-- An event that the dialog may send.
pub record IsAcceptable (e : IngestEventRequest) : Type 0 where
  pub address : IsAddress e.victim_ip
  pub vector_given : e.vector ≢ []
  pub ports_given :
      (l : List Number) × (e.top_dst_ports ≡ some l) × (length l ≤ 8) × All (IsBetween 1 65535) l
  pub bps_number : IsNullOr (λ x. is_nan x ≡ false) e.bps
  pub pps_number : IsNullOr (λ x. is_nan x ≡ false) e.pps
  pub confidence_number : IsNullOr (IsBetween 0 1) e.confidence
  pub from_dashboard : e.source ≡ codes "dashboard"
  pub bans : e.action ≡ some (codes "ban")

between_lem :
    (x : Number) → (not (is_nan x) && at_least x 0 && at_most x 1) ≡ true → IsBetween 0 1 x
between_lem nan e = ground arith
between_lem (infinity true) e = ground arith
between_lem (infinity false) e = ground arith
between_lem (finite true n d) e = ground arith
between_lem (finite false n d) e = ground arith

module _ (number_of : Text → Number) where
  number_lem :
      (text : Text)
      → (not (truthy text) || not (is_nan (number_of text))) ≡ true
      → IsNullOr (λ x. is_nan x ≡ false) (some (number_or_null number_of text))
  number_lem [] e = tt
  number_lem (c ∷ s) e = ground arith

  confidence_lem :
      (text : Text)
      → IsBetween 0 1 (number_of text)
      → IsNullOr (IsBetween 0 1) (some (number_or_null number_of text))
  confidence_lem [] b = tt
  confidence_lem (c ∷ s) b = b

  ports_lem :
      (input : Text)
      → is_some (parse_ports number_of input) ≡ true
      → (l : List Number) × (parse_ports number_of input ≡ some l)
        × (length l ≤ 8)
        × All (IsBetween 1 65535) l
  ports_lem input e = elim (Option-cases (parse_ports number_of input)) [
    | inl refused ↦ absurd (ground arith)
    | inr (l, read) ↦
        let (short, between) = parse_ports-IsBetween number_of input l read in
        (l, read, short, between)
  ]

  event_of-IsAcceptable :
      (timestamp : Text) (d : MitigateDialog)
      → is_valid number_of d ≡ true
      → IsAcceptable (event_of number_of timestamp d)
  unfolding is_valid event_of
  event_of-IsAcceptable timestamp d e = record {
    address = (is_valid_ipv4_iff d.victim_ip).0 (ground arith);
    vector_given = λ empty. ground (arith, same_refl []);
    ports_given = ports_lem d.ports (ground arith);
    bps_number = number_lem d.bps (ground arith);
    pps_number = number_lem d.pps (ground arith);
    confidence_number =
        confidence_lem d.confidence (between_lem (number_of d.confidence) (ground arith));
    from_dashboard = refl;
    bans = refl;
  }

  -- What a click on the button does: where a field is wrong, or an event is being submitted, nothing
  -- changes and nothing is sent; otherwise the dialog waits, its error is gone, and one event is sent,
  -- whose address is four parts of one to three digits with values of at most 255, whose vector is not
  -- empty, whose ports are at most eight numbers from 1 to 65535, whose rates are null or no NaN, and
  -- whose confidence is null or from 0 to 1.
  pub click_submit_lem :
      (timestamp : Text) (d : MitigateDialog)
      → (((is_valid number_of d ≡ false) ⊎ (d.is_submitting ≡ true))
          × (click_submit number_of timestamp d ≡ (d, none)))
        ⊎ ((d.is_submitting ≡ false)
            × (e : IngestEventRequest) × IsAcceptable e
            × (e.victim_ip ≡ d.victim_ip)
            × (click_submit number_of timestamp d
                ≡ (record d { is_submitting = true; error = none }, some (ingest_event e))))
  unfolding click_submit handle_submit
  click_submit_lem timestamp d = elim (Bool-cases (is_valid number_of d)) [
    | inr wrong ↦ inl (inl wrong, rw wrong refl)
    | inl valid ↦ elim (Bool-cases d.is_submitting) [
      | inl busy ↦ inl (inr busy, rw (valid, busy) refl)
      | inr idle ↦ inr (
        idle,
        event_of number_of timestamp d,
        event_of-IsAcceptable timestamp d valid,
        refl,
        rw (valid, idle) refl,
      )
    ]
  ]
