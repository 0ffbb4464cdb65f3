-- ===== src/Table/Events/Details.antt =====
-- The panel of one event, frontend/components/dashboard/event-detail-panel.tsx: the age, the protocol
-- and the ports that it shows. `JSON.parse` and `String` are arguments. Times are in milliseconds.
use prefixd.Base.{
  ◌↔◌, ℕ, suc, ◌+◌, ◌-◌, ◌*◌, ◌/◌, ◌≤◌, ◌<◌, Bool, true, false, Option, none, some, [], ◌∷◌, ◌++◌,
  if◌then◌else◌, ltb, ◌==◌, arith, ◌≡◌, ◌↔◌, refl, Bool-cases, inl, inr,
}
use prefixd.Base.Text.{Text, codes, truthy}
use prefixd.Base.Decimal.{to_decimal}
use prefixd.Base.Http.{Result, ok, err}
use prefixd.Base.Numbers.{is_falsy}
use prefixd.Base.Json.{Json, null, boolean, number, string, array, object, Items, nil, cons}

pub data TimeUnit : Type 0 where
  seconds minutes hours days : TimeUnit

-- The seconds of a unit, and the letter that stands for it.
abbrev pub seconds_of : TimeUnit → ℕ
seconds_of seconds = 1
seconds_of minutes = 60
seconds_of hours = 3600
seconds_of days = 86400

abbrev pub letter_of : TimeUnit → Text
letter_of seconds = codes "s"
letter_of minutes = codes "m"
letter_of hours = codes "h"
letter_of days = codes "d"

-- The number and the unit that are shown for a number of seconds.
unfoldable pub age_of : ℕ → ℕ × TimeUnit
age_of diff_secs =
    let diff_mins = diff_secs / 60 in
    let diff_hours = diff_mins / 60 in
    let diff_days = diff_hours / 24 in
    if ltb diff_secs 60
    then (diff_secs, seconds)
    else if ltb diff_mins 60
    then (diff_mins, minutes)
    else if ltb diff_hours 24
    then (diff_hours, hours)
    else (diff_days, days)

-- `Math.abs(now - date)`.
abbrev pub distance : ℕ → ℕ → ℕ
distance now date = (now - date) + (date - now)

-- `formatRelativeTime`.
unfoldable pub format_relative_time : (now date : ℕ) → Text
unfolding age_of to_decimal
format_relative_time now date =
    let (n, unit) = age_of (distance now date / 1000) in
    to_decimal n ++ (letter_of unit ++ codes " ago")

-- `protocolName`; `none` is null.
unfoldable pub protocol_name : Option ℕ → Text
unfolding to_decimal
protocol_name none = codes "N/A"
protocol_name (some proto) =
    if proto == 1
    then codes "ICMP (1)"
    else if proto == 6
    then codes "TCP (6)"
    else if proto == 17
    then codes "UDP (17)"
    else to_decimal proto

abbrev pub is_falsy_json : Json → Bool
is_falsy_json null = true
is_falsy_json (boolean b) = if b then false else true
is_falsy_json (number n) = is_falsy n
is_falsy_json (string t) = if truthy t then false else true
is_falsy_json _ = false

-- `… || []`, and the `catch`.
abbrev pub ports_of_result : Result Json → Json
ports_of_result (ok v) = if is_falsy_json v then array nil else v
ports_of_result (err message) = array nil

-- `parsePorts`, whatever JSON was parsed.
unfoldable pub parse_ports : (parse : Text → Result Json) → Text → Json
parse_ports parse ports_json = ports_of_result (parse ports_json)

module _ (text_of : Json → Text) where
  -- `ports.join(", ")`.
  unfoldable pub join_items : Items → Text
  join_items nil = []
  join_items (cons v nil) = text_of v
  join_items (cons v (cons w l)) = text_of v ++ (codes ", " ++ join_items (cons w l))

  -- The line of the ports; `none` is the error that is thrown, as a text has a length and no `join`. An
  -- object is taken to have no length.
  unfoldable pub ports_line : Json → Option Text
  unfolding join_items
  ports_line (array nil) = some (codes "N/A")
  ports_line (array (cons v l)) = some (join_items (cons v l))
  ports_line (string t) = if truthy t then none else some (codes "N/A")
  ports_line _ = some (codes "N/A")

-- The age is the number of whole units that have passed, and the number is below the next unit's.
pub age_of_lem :
    (secs : ℕ)
    → let (n, unit) = age_of secs in (n * seconds_of unit ≤ secs) × (secs < suc n * seconds_of unit)
unfolding age_of
age_of_lem secs = ground arith

module _ (text_of : Json → Text) where
  abbrev Throws : Result Json → Type 0
  Throws r = (t : Text) × (r ≡ ok (string t)) × (truthy t ≡ true)

  thrown : (r : Result Json) → ports_line text_of (ports_of_result r) ≡ none → Throws r
  unfolding ports_line
  thrown (err message) e = absurd (ground arith)
  thrown (ok null) e = absurd (ground arith)
  thrown (ok (boolean true)) e = absurd (ground arith)
  thrown (ok (boolean false)) e = absurd (ground arith)
  thrown (ok (number n)) e = elim (Bool-cases (is_falsy n)) [
    | inl zero ↦ absurd (ground arith)
    | inr some_ports ↦ absurd (ground arith)
  ]
  thrown (ok (array nil)) e = absurd (ground arith)
  thrown (ok (array (cons v l))) e = absurd (ground arith)
  thrown (ok (object f)) e = absurd (ground arith)
  thrown (ok (string [])) e = absurd (ground arith)
  thrown (ok (string (c ∷ t))) e = (c ∷ t, refl, refl)

  throws :
      (t : Text) → truthy t ≡ true → ports_line text_of (ports_of_result (ok (string t))) ≡ none
  unfolding ports_line
  throws [] full = absurd (ground arith)
  throws (c ∷ t) full = refl

  -- The panel throws exactly where the text of the ports is JSON of a text that is not empty.
  pub ports_line_iff :
      (parse : Text → Result Json) (ports_json : Text)
      → (ports_line text_of (parse_ports parse ports_json) ≡ none)
        ↔ ((t : Text) × (parse ports_json ≡ ok (string t)) × (truthy t ≡ true))
  unfolding parse_ports
  ports_line_iff parse ports_json =
      (thrown (parse ports_json), λ (t, e, full). rw e (throws t full))
