-- ===== src/Admin/Uptime.antt =====
-- `formatUptime` of frontend/app/(dashboard)/admin/page.tsx, on a natural number of seconds.
use prefixd.Base.{ℕ, ◌+◌, ◌*◌, ◌/◌, ◌%◌, ◌≤◌, ◌<◌, ◌++◌, if◌then◌else◌, ltb, arith}
use prefixd.Base.Text.{Text, codes}
use prefixd.Base.Decimal.{to_decimal}

unfoldable pub uptime_parts : ℕ → ℕ × ℕ × ℕ
uptime_parts seconds = (seconds / 86400, seconds % 86400 / 3600, seconds % 3600 / 60)

unfoldable pub format_uptime : ℕ → Text
unfolding uptime_parts
format_uptime seconds =
    let (days, hours, mins) = uptime_parts seconds in
    if ltb 0 days
    then to_decimal days ++ (codes "d " ++ (to_decimal hours ++ codes "h"))
    else if ltb 0 hours
    then to_decimal hours ++ (codes "h " ++ (to_decimal mins ++ codes "m"))
    else to_decimal mins ++ codes "m"

-- The parts are a day's time, and less than a minute is left over.
pub uptime_parts_lem :
    (seconds : ℕ)
    → let (days, hours, mins) = uptime_parts seconds in
      (hours < 24)
      × (mins < 60)
      × (days * 86400 + hours * 3600 + mins * 60 ≤ seconds)
      × (seconds < days * 86400 + hours * 3600 + mins * 60 + 60)
unfolding uptime_parts
uptime_parts_lem seconds = omega arith
