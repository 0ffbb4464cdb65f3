-- ===== src/Playbook/Valid.antt =====
-- What a list of playbooks must be for the daemon to take it, as the messages of
-- frontend/components/dashboard/playbook-editor.tsx say it.
use prefixd.Base.{ℕ, ◌≤◌, false, Option, none, some, List, [], ◌∷◌, map, All, In, length, ◌≡◌}
use prefixd.Base.Trim.{is_space}
use prefixd.Base.Text.{Text, codes}
use prefixd.Playbook.{Step, ConfigPlaybook, vectors, actions}
use prefixd.Base.Numbers.{Number, IsBetween, IsPositive, IsNonNegative}

abbrev pub IsOptional : (Number → Type 0) → Option Number → Type 0
IsOptional P none = Unit
IsOptional P (some x) = P x

abbrev pub IsGiven : (Number → Type 0) → Option Number → Type 0
IsGiven P none = ⊥
IsGiven P (some x) = P x

pub record IsValidStep (step : Step) : Type 0 where
  pub action_known : In step.action actions
  pub ttl : IsBetween 1 86400 step.ttl_seconds
  pub rate : step.action ≡ codes "police" → IsGiven IsPositive step.rate_bps
  pub confidence : IsOptional (IsBetween 0 1) step.require_confidence_at_least
  pub persistence : IsOptional IsNonNegative step.require_persistence_seconds

-- There is a first step, which asks for nothing, and all steps are valid.
abbrev pub AreValidSteps : List Step → Type 0
AreValidSteps [] = ⊥
AreValidSteps (first ∷ steps) =
    (first.require_confidence_at_least ≡ none)
    × (first.require_persistence_seconds ≡ none)
    × All IsValidStep (first ∷ steps)

-- Some character of the text is not white space.
abbrev pub IsNamed : Text → Type 0
IsNamed name = (c : ℕ) × In c name × (is_space c ≡ false)

pub record IsValidPlaybook (pb : ConfigPlaybook) : Type 0 where
  pub named : IsNamed pb.name
  pub short : length pb.name ≤ 128
  pub vector_known : In pb.match_rule.vector vectors
  pub steps_valid : AreValidSteps pb.steps

abbrev pub AreDistinct : List Text → Type 0
AreDistinct [] = Unit
AreDistinct (x ∷ l) = (In x l → ⊥) × AreDistinct l

abbrev pub names_of : List ConfigPlaybook → List Text
names_of pbs = map (λ pb. pb.name) pbs

abbrev pub AreValid : List ConfigPlaybook → Type 0
AreValid [] = ⊥
AreValid (pb ∷ pbs) = All IsValidPlaybook (pb ∷ pbs) × AreDistinct (names_of (pb ∷ pbs))
