-- ===== src/Severity.antt =====
-- The severity of a mitigation, frontend/components/dashboard/severity-badge.tsx.
pub mod Badges
pub mod Gauges
mod Tests
use prefixd.Base.{◌&&◌, if◌then◌else◌, arith, ◌≡◌, ◌≢◌, ◌↔◌}
use prefixd.Base.Text.{Text, codes, same, same_iff}

pub data Severity : Type 0 where
  critical high medium low : Severity

unfoldable pub derive_severity : (status action_type : Text) → Severity
derive_severity status action_type =
    if same status (codes "escalated")
    then critical
    else if same action_type (codes "discard")
    then high
    else if same status (codes "active") && same action_type (codes "police")
    then medium
    else low

-- An escalated mitigation is critical; any other one is high exactly where it discards, and medium
-- exactly where it is active and polices.
pub derive_severity_lem :
    (status action_type : Text)
    → ((derive_severity status action_type ≡ critical) ↔ (status ≡ codes "escalated"))
      × ((derive_severity status action_type ≡ high)
          ↔ ((status ≢ codes "escalated") × (action_type ≡ codes "discard")))
      × ((derive_severity status action_type ≡ medium)
          ↔ ((status ≡ codes "active") × (action_type ≡ codes "police")))
unfolding derive_severity
derive_severity_lem status action_type =
    let escalated = same_iff status (codes "escalated") in
    let discards = same_iff action_type (codes "discard") in
    let active = same_iff status (codes "active") in
    let polices = same_iff action_type (codes "police") in
    (
      ground (arith, escalated),
      ground (arith, escalated, discards),
      ground (arith, escalated, discards, active, polices),
    )
