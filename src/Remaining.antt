-- ===== src/Remaining.antt =====
-- The list of active mitigations on the overview,
-- frontend/components/dashboard/active-mitigations-mini.tsx: which are shown, and how long they last.
-- Times are in milliseconds.
use prefixd.Base.{
  ℕ, ◌+◌, ◌-◌, ◌*◌, ◌/◌, ◌%◌, ◌<◌, Bool, ◌||◌, List, ◌++◌, if◌then◌else◌, ltb, leb, keep, take,
  arith, ◌≡◌,
}
use prefixd.Base.Text.{Text, codes, same}
use prefixd.Base.Decimal.{to_decimal}
use prefixd.Table.Mitigations.{Mitigation}

abbrev pub is_active : Mitigation → Bool
is_active m = same m.status (codes "active") || same m.status (codes "escalated")

unfoldable pub active : (limit : ℕ) → List Mitigation → List Mitigation
active limit mitigations = take limit (keep is_active mitigations)

-- The days, the hours and the minutes of a number of minutes.
unfoldable pub time_parts : ℕ → ℕ × ℕ × ℕ
time_parts mins = (mins / 60 / 24, mins / 60 % 24, mins % 60)

-- `formatTimeRemaining`.
unfoldable pub format_time_remaining : (now expires : ℕ) → Text
unfolding time_parts
format_time_remaining now expires =
    let mins = (expires - now) / 60000 in
    let (days, hours, minutes) = time_parts mins in
    if leb expires now
    then codes "expired"
    else if ltb mins 60
    then to_decimal mins ++ codes "m"
    else if ltb (mins / 60) 24
    then to_decimal (mins / 60) ++ (codes "h " ++ (to_decimal minutes ++ codes "m"))
    else to_decimal days ++ (codes "d " ++ (to_decimal hours ++ codes "h"))

-- The parts are the time of day and are what the minutes are made of.
pub time_parts_lem :
    (mins : ℕ)
    → let (days, hours, minutes) = time_parts mins in
      (hours < 24) × (minutes < 60) × (mins ≡ days * 1440 + hours * 60 + minutes)
unfolding time_parts
time_parts_lem mins = omega arith
