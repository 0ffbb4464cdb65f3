-- ===== src/Detail/Rule.antt =====
-- What the page of one mitigation shows of its rule, its time line and its events,
-- frontend/app/(dashboard)/mitigations/[id]/page.tsx. `encodeURIComponent` and the time of a date in
-- milliseconds are arguments, and so is how a quotient is rounded.
use prefixd.Base.{
  ℕ, true, false, Option, none, some, List, [], ◌∷◌, ◌++◌, map, if◌then◌else◌, ltb, ◌==◌, ◌≡◌, refl,
}
use prefixd.Base.Text.{Text, codes, same, truthy}
use prefixd.Base.Decimal.{to_decimal}
use prefixd.Rates.{format_bps}
use prefixd.Activity.{replace_all}

-- The fields of the mitigation that are shown.
pub record RuleShown : Type 0 where
  pub victim_ip : Text
  pub vector : Text
  pub action_type : Text
  pub rate_bps : Option ℕ
  pub dst_ports : List ℕ
  pub created_at : Text
  pub updated_at : Text
  pub expires_at : Text
  pub withdrawn_at : Option Text
  pub triggering_event_id : Text
  pub last_event_id : Text

-- `dst_ports.join(", ")`, and "Any" for none.
unfoldable pub join_ports : List ℕ → Text
unfolding to_decimal
join_ports [] = []
join_ports (p ∷ []) = to_decimal p
join_ports (p ∷ q ∷ l) = to_decimal p ++ (codes ", " ++ join_ports (q ∷ l))

unfoldable pub ports_text : List ℕ → Text
unfolding join_ports
ports_text [] = codes "Any"
ports_text (p ∷ l) = join_ports (p ∷ l)

abbrev pub vector_text : RuleShown → Text
vector_text m = replace_all m.vector

unfoldable pub rule_action : (to_fixed : (digits n d : ℕ) → Text) → RuleShown → Text
unfolding format_bps
rule_action to_fixed m =
    if same m.action_type (codes "discard")
    then codes "discard"
    else codes "rate-limit " ++ format_bps to_fixed m.rate_bps

-- The line below an update; a rate of 0 is shown like none.
unfoldable pub update_text : (to_fixed : (digits n d : ℕ) → Text) → RuleShown → Text
unfolding format_bps
update_text to_fixed m =
    codes "Rule updated to " ++ (m.action_type ++ (codes " " ++ rate_of m.rate_bps))
  where
    rate_of : Option ℕ → Text
    rate_of none = []
    rate_of (some n) =
        if n == 0 then [] else codes "(" ++ (format_bps to_fixed (some n) ++ codes ")")

-- What an entry of the time line says.
pub data Moment : Type 0 where
  creation update withdrawal ahead past : Moment

abbrev pub Entry : Type 0
Entry = Moment × Text

module _ (time_of : Text → ℕ) (now : ℕ) where
  abbrev pub expiry : RuleShown → Entry
  expiry m = (if ltb (time_of m.expires_at) now then past else ahead, m.expires_at)

  abbrev pub ending : Option Text → RuleShown → Entry
  ending none m = expiry m
  ending (some t) m = if truthy t then (withdrawal, t) else expiry m

  -- The entries of the time line with the times that they show.
  unfoldable pub timeline : RuleShown → List Entry
  timeline m =
      let last = ending m.withdrawn_at m ∷ [] in
      (creation, m.created_at)
      ∷ (if same m.updated_at m.created_at then last else (update, m.updated_at) ∷ last)

-- The ids of the events that the card of metadata links, and their addresses.
unfoldable pub linked_events : RuleShown → List Text
linked_events m =
    m.triggering_event_id
    ∷ (if same m.last_event_id m.triggering_event_id then [] else m.last_event_id ∷ [])

abbrev pub event_hrefs : (encode : Text → Text) → RuleShown → List Text
event_hrefs encode m = map (λ id. codes "/events?id=" ++ encode id) (linked_events m)

abbrev pub ip_href : (encode : Text → Text) → RuleShown → Text
ip_href encode m = codes "/ip-history?ip=" ++ encode m.victim_ip

-- Where the daemon has set both times, which it does when a mitigation expires as well as when one is
-- withdrawn, the time line says that the mitigation was updated and withdrawn, whatever became of it.
pub timeline-withdrawn :
    (time_of : Text → ℕ) (now : ℕ) (m : RuleShown) (t : Text)
    → m.withdrawn_at ≡ some t
    → truthy t ≡ true
    → same m.updated_at m.created_at ≡ false
    → timeline time_of now m
      ≡ (creation, m.created_at) ∷ (update, m.updated_at) ∷ (withdrawal, t) ∷ []
unfolding timeline
timeline-withdrawn time_of now m t e full changed = rw (changed, e, full) refl

-- A mitigation that has not been withdrawn is shown to end when it expires, in the past or not.
pub timeline-expiry :
    (time_of : Text → ℕ) (now : ℕ) (m : RuleShown)
    → m.withdrawn_at ≡ none
    → same m.updated_at m.created_at ≡ true
    → timeline time_of now m ≡ (creation, m.created_at) ∷ expiry time_of now m ∷ []
unfolding timeline
timeline-expiry time_of now m e same_time = rw (same_time, e) refl
