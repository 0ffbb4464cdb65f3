-- ===== src/Rates.antt =====
-- How the dashboard shows rates and durations: `formatBps` and `formatPps` of
-- frontend/components/dashboard/events-content-live.tsx and event-detail-panel.tsx, `formatBps` of
-- frontend/components/dashboard/action-badge.tsx, and `formatRate` and `formatTtl` of
-- frontend/components/dashboard/playbook-editor.tsx. `(n / d).toFixed(digits)` rounds a quotient of
-- the browser's and is an argument.
mod Tests
use prefixd.Base.{
  ℕ, suc, ◌+◌, ◌*◌, ◌/◌, ◌≤◌, ◌<◌, Bool, Option, none, some, ◌++◌, if◌then◌else◌, ltb, leb, ◌==◌,
  ◌⊎◌, inl, inr, arith, ◌≡◌, ◌≢◌, ◌↔◌, Bool-cases, refl, sym,
}
use prefixd.Base.Text.{Text, codes, same}
use prefixd.Base.Decimal.{to_decimal}

module _ (to_fixed : (digits n d : ℕ) → Text) where
  -- `formatBps` of a number.
  unfoldable pub format_bits : ℕ → Text
  unfolding to_decimal
  format_bits bps =
      if leb 1000000000 bps
      then to_fixed 1 bps 1000000000 ++ codes " Gbps"
      else if leb 1000000 bps
      then to_fixed 1 bps 1000000 ++ codes " Mbps"
      else if leb 1000 bps
      then to_fixed 1 bps 1000 ++ codes " Kbps"
      else to_decimal bps ++ codes " bps"

  -- `formatBps` where the rate may be missing.
  unfoldable pub format_bps : Option ℕ → Text
  unfolding format_bits
  format_bps none = codes "N/A"
  format_bps (some bps) = if bps == 0 then codes "N/A" else format_bits bps

  unfoldable pub format_pps : Option ℕ → Text
  unfolding to_decimal
  format_pps none = codes "N/A"
  format_pps (some pps) =
      if pps == 0
      then codes "N/A"
      else if leb 1000000 pps
      then to_fixed 1 pps 1000000 ++ codes "M pps"
      else if leb 1000 pps
      then to_fixed 0 pps 1000 ++ codes "K pps"
      else to_decimal pps ++ codes " pps"

  unfoldable pub format_rate : ℕ → Text
  unfolding to_decimal
  format_rate bps =
      if leb 1000000000 bps
      then to_fixed 1 bps 1000000000 ++ codes " Gbps"
      else if leb 1000000 bps
      then to_fixed 0 bps 1000000 ++ codes " Mbps"
      else if leb 1000 bps
      then to_fixed 0 bps 1000 ++ codes " Kbps"
      else to_decimal bps ++ codes " bps"

  unfoldable pub format_ttl : ℕ → Text
  unfolding to_decimal
  format_ttl seconds =
      if leb 3600 seconds
      then to_fixed 1 seconds 3600 ++ codes "h"
      else if leb 60 seconds
      then to_fixed 0 seconds 60 ++ codes "m"
      else to_decimal seconds ++ codes "s"

  -- The badge of an action, with the rate of one that polices.
  unfoldable pub action_text : Text → Option ℕ → Text
  unfolding format_bits
  action_text action none = action
  action_text action (some rate) =
      if same action (codes "police")
      then if rate == 0 then action else codes "police " ++ format_bits rate
      else action
