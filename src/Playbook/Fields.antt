-- ===== src/Playbook/Fields.antt =====
-- The fields of a playbook and of its steps in frontend/components/dashboard/playbook-editor.tsx.
-- `Number(text)` of the browser is an argument.
use prefixd.Base.{
  ℕ, Bool, true, false, not, Option, none, some, if◌then◌else◌, ◌==◌, arith, ◌≡◌, ◌↔◌,
}
use prefixd.Base.Text.{Text, codes, same, truthy}
use prefixd.Base.Numbers.{Number, nan, infinity, finite, is_falsy, IsBetween}
use prefixd.Playbook.{Step, ConfigPlaybook, ttl_is_wrong}
use prefixd.Playbook.Checks.{ttl_iff}

module _ (number_of : Text → Number) where
  -- `value ? Number(value) : undefined`.
  abbrev pub number_if : Text → Option Number
  number_if value = if truthy value then some (number_of value) else none

  abbrev pub set_rate_bps : Text → Step → Step
  set_rate_bps value step = record step { rate_bps = number_if value }

  -- `Number(value) || 0`.
  unfoldable pub set_ttl_seconds : Text → Step → Step
  set_ttl_seconds value step = record step {
    ttl_seconds = if is_falsy (number_of value) then finite false 0 0 else number_of value;
  }

  abbrev pub set_confidence : Text → Step → Step
  set_confidence value step = record step { require_confidence_at_least = number_if value }

  abbrev pub set_persistence : Text → Step → Step
  set_persistence value step = record step { require_persistence_seconds = number_if value }

  short_lem :
      (x : Number)
      → IsBetween 1 86400 (if is_falsy x then finite false 0 0 else x) ↔ IsBetween 1 86400 x
  short_lem nan = ground arith
  short_lem (infinity b) = ground arith
  short_lem (finite true n d) = ground arith
  short_lem (finite false n d) = ground arith

  -- The field of the TTL leaves the step without an error for it exactly where the browser reads the
  -- text as a finite number from 1 to 86400.
  pub set_ttl_seconds_iff :
      (value : Text) (step : Step)
      → (ttl_is_wrong (set_ttl_seconds value step).ttl_seconds ≡ false)
        ↔ IsBetween 1 86400 (number_of value)
  unfolding set_ttl_seconds
  set_ttl_seconds_iff value step =
      let checked =
        ttl_iff (if is_falsy (number_of value) then finite false 0 0 else number_of value) in
      let same_bound = short_lem (number_of value) in
      ((λ e. same_bound.0 (checked.0 e)), λ b. checked.1 (same_bound.1 b))

-- Which fields a step has: the rate where it polices, the requirements where it is not the first.
abbrev pub rate_is_shown : Step → Bool
rate_is_shown step = same step.action (codes "police")

abbrev pub requirements_are_shown : (index : ℕ) → Bool
requirements_are_shown index = not (index == 0)

abbrev pub set_name : Text → ConfigPlaybook → ConfigPlaybook
set_name name pb = record pb { name = name }

abbrev pub set_vector : Text → ConfigPlaybook → ConfigPlaybook
set_vector vector pb = record pb {
  match_rule = record { vector = vector; require_top_ports = pb.match_rule.require_top_ports };
}

abbrev pub set_require_top_ports : Bool → ConfigPlaybook → ConfigPlaybook
set_require_top_ports checked pb = record pb {
  match_rule = record { vector = pb.match_rule.vector; require_top_ports = some checked };
}
