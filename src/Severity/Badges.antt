-- ===== src/Severity/Badges.antt =====
-- The badges of the dashboard: frontend/components/dashboard/status-badge.tsx, source-badge.tsx,
-- actor-badge.tsx and action-type-badge.tsx. `toLowerCase` belongs to the browser and is an argument.
use prefixd.Base.{Bool, true, false, not, ◌||◌, List, [], ◌∷◌, any, if◌then◌else◌, ◌≡◌, refl}
use prefixd.Base.Text.{Text, codes, same}

pub data Status : Type 0 where
  pending active escalated expired withdrawn rejected : Status

pub data Tone : Type 0 where
  positive negative warning muted : Tone

unfoldable pub status_tone : Status → Tone
status_tone active = positive
status_tone escalated = negative
status_tone rejected = negative
status_tone pending = warning
status_tone expired = muted
status_tone withdrawn = muted

abbrev pub should_pulse : (reduced_motion : Bool) → Status → Bool
should_pulse reduced_motion active = not reduced_motion
should_pulse reduced_motion _ = false

-- Whether the source is the automatic one.
abbrev pub is_auto : Text → Bool
is_auto source = same source (codes "fastnetmon")

pub data ActorType : Type 0 where
  system operator detector : ActorType

abbrev pub is_system_like : ActorType → Bool
is_system_like operator = false
is_system_like _ = true

abbrev positive_actions : List Text
positive_actions =
    codes "announce" ∷ codes "create" ∷ codes "extend" ∷ codes "ingest" ∷ codes "safelist_add" ∷ []

unfoldable pub action_tone : (to_lower_case : Text → Text) → Text → Tone
action_tone to_lower_case action =
    let normalized = to_lower_case action in
    if any (λ t. same normalized t) positive_actions
    then positive
    else if same normalized (codes "reject") || same normalized (codes "escalate")
    then negative
    else muted

withdrawals_are_muted : action_tone (λ t. t) (codes "withdraw") ≡ muted
unfolding action_tone
withdrawals_are_muted = refl
