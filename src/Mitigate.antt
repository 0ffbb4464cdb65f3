-- ===== src/Mitigate.antt =====
-- The dialog that reports an attack by hand, frontend/components/dashboard/mitigate-now-dialog.tsx: its
-- tests of the fields, its state, and `handleSubmit` in two parts, up to the `await` and after it.
-- `Number(text)` of the browser is an argument.
pub mod Addresses
pub mod Ports
pub mod Submission
mod Tests
use prefixd.Base.{
  ℕ, Bool, true, false, not, ◌&&◌, ◌||◌, Option, none, some, List, [], ◌∷◌, ◌++◌, map,
  if◌then◌else◌, ◌==◌, ltb, leb, all, any, length, is_some, or_else,
}
use prefixd.Base.Text.{Text, codes, same, truthy}
use prefixd.Base.Trim.{trim}
use prefixd.Base.Split.{split}
use prefixd.Base.Digits.{is_digit}
use prefixd.Base.Decimal.{value_from}
use prefixd.Base.Http.{Result, ok, err}
use prefixd.Base.Numbers.{Number, is_nan, less_than, greater_than, at_least, at_most}
use prefixd.Api.Types.{IngestEventRequest, EventResponse}
use prefixd.Api.Endpoints.{Request, ingest_event}

-- The test of one part of an address: `/^\d{1,3}$/` and the bounds.
unfoldable pub is_octet : Text → Bool
unfolding value_from
is_octet p =
    all is_digit p
    && leb 1 (length p)
    && leb (length p) 3
    && leb 0 (value_from 0 p)
    && leb (value_from 0 p) 255

unfoldable pub is_valid_ipv4 : Text → Bool
unfolding split is_octet
is_valid_ipv4 ip =
    let parts = split b'.' ip in if not (length parts == 4) then false else all is_octet parts

-- A port that is refused.
abbrev pub is_bad_port : Number → Bool
is_bad_port n = is_nan n || less_than n 1 || greater_than n 65535

pub record MitigateDialog : Type 0 where
  -- The `open` that the page keeps for the dialog.
  pub is_open : Bool
  pub victim_ip : Text
  pub vector : Text
  pub bps : Text
  pub pps : Text
  pub ports : Text
  pub confidence : Text
  pub is_submitting : Bool
  pub error : Option Text

abbrev pub closed : MitigateDialog
closed = record {
  is_open = false;
  victim_ip = [];
  vector = [];
  bps = [];
  pps = [];
  ports = [];
  confidence = codes "1.0";
  is_submitting = false;
  error = none;
}

unfoldable pub reset : MitigateDialog → MitigateDialog
reset d = record d {
  victim_ip = [];
  vector = [];
  bps = [];
  pps = [];
  ports = [];
  confidence = codes "1.0";
  error = none;
}

module _ (number_of : Text → Number) where
  -- `null` is `none`.
  unfoldable pub parse_ports : Text → Option (List Number)
  unfolding split trim
  parse_ports input =
      if not (truthy (trim input))
      then some []
      else let parsed = map number_of (map trim (split b',' input)) in
        if any is_bad_port parsed then none else if ltb 8 (length parsed) then none else some parsed

  -- A field that is empty or a number.
  abbrev is_number_or_empty : Text → Bool
  is_number_or_empty text = not (truthy text) || not (is_nan (number_of text))

  unfoldable pub is_valid : MitigateDialog → Bool
  unfolding is_valid_ipv4 parse_ports
  is_valid d =
      is_valid_ipv4 d.victim_ip
      && not (same d.vector [])
      && is_some (parse_ports d.ports)
      && is_number_or_empty d.bps
      && is_number_or_empty d.pps
      && not (is_nan (number_of d.confidence))
      && at_least (number_of d.confidence) 0
      && at_most (number_of d.confidence) 1

  abbrev pub number_or_null : Text → Option Number
  number_or_null text = if truthy text then some (number_of text) else none

  -- The event of the fields, at the time of the click.
  unfoldable pub event_of : Text → MitigateDialog → IngestEventRequest
  unfolding parse_ports
  event_of timestamp d = record {
    victim_ip = d.victim_ip;
    vector = d.vector;
    source = codes "dashboard";
    timestamp = timestamp;
    bps = some (number_or_null d.bps);
    pps = some (number_or_null d.pps);
    top_dst_ports = parse_ports d.ports;
    confidence = some (number_or_null d.confidence);
    action = some (codes "ban");
  }

  unfoldable pub handle_submit : Text → MitigateDialog → MitigateDialog × Option Request
  unfolding is_valid event_of
  handle_submit timestamp d =
      if is_valid d
      then (
        record d { is_submitting = true; error = none },
        some (ingest_event (event_of timestamp d)),
      )
      else (d, none)

  -- A click on the button, which is disabled where a field is wrong and during a submission.
  unfoldable pub click_submit : Text → MitigateDialog → MitigateDialog × Option Request
  unfolding is_valid handle_submit
  click_submit timestamp d =
      if not (is_valid d) || d.is_submitting then (d, none) else handle_submit timestamp d

-- What is shown when the request has ended, and the page that is opened.
pub data Outcome : Type 0 where
  created : (description page : Text) → Outcome
  accepted : (description : Text) → Outcome
  failed : (description : Text) → Outcome

abbrev pub spaced : Text → Text
spaced text = map (λ c. if c == b'_' then b' ' else c) text

-- The rest of `handleSubmit`. `sent` is the dialog as it was at the click, which the closure reads.
unfoldable pub submitted :
    (sent : MitigateDialog) → Result EventResponse → MitigateDialog → MitigateDialog × Outcome
unfolding reset
submitted sent (ok result) d =
    let over = record (reset d) { is_open = false; is_submitting = false } in
    elim result.mitigation_id [
      | some (c ∷ id) ↦ (
        over,
        created (sent.victim_ip ++ codes " — " ++ spaced sent.vector)
            (codes "/mitigations/" ++ (c ∷ id)),
      )
      | _ ↦ (over, accepted result.status)
    ]
submitted sent (err message) d =
    (record d { is_submitting = false; error = some message }, failed message)

-- `onOpenChange` of the dialog: the escape key and clicks beside it.
unfoldable pub open_change : Bool → MitigateDialog → MitigateDialog
unfolding reset
open_change v d =
    if d.is_submitting
    then d
    else if v
    then record d { is_open = v }
    else reset (record d { is_open = v })

-- The button that cancels, which is disabled while a request is under way.
unfoldable pub cancel : MitigateDialog → MitigateDialog
cancel d = if d.is_submitting then d else record d { is_open = false }
