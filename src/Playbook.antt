-- ===== src/Playbook.antt =====
-- The validator of the playbook editor, frontend/components/dashboard/playbook-editor.tsx.
pub mod Valid
pub mod Checks
pub mod Loops
pub mod Draft
pub mod Yaml
pub mod Fields
mod Tests
use prefixd.Base.{
  ℕ, suc, ◌+◌, Bool, true, false, not, ◌&&◌, ◌||◌, Option, none, some, List, [], ◌∷◌, ◌++◌,
  if◌then◌else◌, ◌==◌, ltb, leb, all, any, length, is_some, or_else,
}
use prefixd.Base.Trim.{is_space}
use prefixd.Base.Text.{Text, codes, same}
use prefixd.Base.Decimal.{to_decimal}
use prefixd.Base.Numbers.{Number, nan, is_finite, less_than, greater_than, at_most, is_falsy}

pub record Step : Type 0 where
  pub action : Text
  pub rate_bps : Option Number
  pub ttl_seconds : Number
  pub require_confidence_at_least : Option Number
  pub require_persistence_seconds : Option Number

pub record Match : Type 0 where
  pub vector : Text
  pub require_top_ports : Option Bool

pub record ConfigPlaybook : Type 0 where
  pub name : Text
  pub match_rule : Match
  pub steps : List Step

abbrev pub vectors : List Text
vectors =
    codes "udp_flood"
    ∷ codes "syn_flood"
    ∷ codes "ack_flood"
    ∷ codes "icmp_flood"
    ∷ codes "unknown"
    ∷ []

abbrev pub actions : List Text
actions = codes "police" ∷ codes "discard" ∷ []

-- `list.includes(x)` and `names.has(x)`.
unfoldable pub includes : List Text → Text → Bool
includes [] x = false
includes (y ∷ l) x = same y x || includes l x

-- `!name.trim()`.
unfoldable pub is_blank : Text → Bool
is_blank name = all is_space name

-- `if (c) errors.push(message)`.
abbrev pub when : Bool → Text → List Text
when true message = message ∷ []
when false message = []

-- Such tests one after the other.
unfoldable pub report : List (Bool × Text) → List Text
report [] = []
report ((c, message) ∷ l) = when c message ++ report l

abbrev pub context : ℕ → ConfigPlaybook → Text
context i pb =
    codes "Playbook \""
    ++ (elim pb.name as (λ name. Text) [
      | [] ↦ codes "#" ++ to_decimal (suc i)
      | c ∷ name ↦ c ∷ name
    ])
    ++ codes "\""

unfoldable pub name_errors : Text → List Text → Text → List Text
unfolding is_blank includes
name_errors ctx names name =
    if is_blank name
    then (ctx ++ codes ": name is required") ∷ []
    else if ltb 128 (length name)
    then (ctx ++ codes ": name exceeds 128 characters") ∷ []
    else if includes names name
    then (ctx ++ codes ": duplicate name") ∷ []
    else []

unfoldable pub ttl_is_wrong : Number → Bool
ttl_is_wrong ttl = not (is_finite ttl) || less_than ttl 1 || greater_than ttl 86400

unfoldable pub rate_is_wrong : Option Number → Bool
rate_is_wrong none = true
rate_is_wrong (some rate) = not (is_finite rate) || is_falsy rate || at_most rate 0

unfoldable pub confidence_is_wrong : Option Number → Bool
confidence_is_wrong none = false
confidence_is_wrong (some x) = not (is_finite x) || less_than x 0 || greater_than x 1

unfoldable pub persistence_is_wrong : Option Number → Bool
persistence_is_wrong none = false
persistence_is_wrong (some x) = not (is_finite x) || less_than x 0

unfoldable pub step_checks : Text → Step → List (Bool × Text)
unfolding includes ttl_is_wrong rate_is_wrong confidence_is_wrong persistence_is_wrong
step_checks sctx step =
    (not (includes actions step.action), sctx ++ codes ": action must be one of police, discard")
    ∷ (ttl_is_wrong step.ttl_seconds, sctx ++ codes ": TTL must be 1-86400 seconds")
    ∷ (
      same step.action (codes "police") && rate_is_wrong step.rate_bps,
      sctx ++ codes ": police action requires rate > 0",
    )
    ∷ (
      confidence_is_wrong step.require_confidence_at_least,
      sctx ++ codes ": confidence must be 0.0-1.0",
    )
    ∷ (
      persistence_is_wrong step.require_persistence_seconds,
      sctx ++ codes ": persistence must be >= 0 seconds",
    )
    ∷ []

unfoldable pub step_errors : Text → Step → List Text
unfolding report step_checks
step_errors sctx step = report (step_checks sctx step)

-- The loop over the steps, from step j.
unfoldable pub steps_errors : Text → ℕ → List Step → List Text
unfolding step_errors
steps_errors ctx j [] = []
steps_errors ctx j (step ∷ steps) =
    step_errors (ctx ++ codes " step " ++ to_decimal (suc j)) step ++ steps_errors ctx (suc j) steps

abbrev pub escalates : Step → Bool
escalates first =
    is_some first.require_confidence_at_least || is_some first.require_persistence_seconds

unfoldable pub all_steps_errors : Text → List Step → List Text
unfolding steps_errors
all_steps_errors ctx [] = (ctx ++ codes ": at least one step is required") ∷ []
all_steps_errors ctx (first ∷ steps) =
    when (escalates first) (ctx ++ codes ": first step must not have escalation requirements")
    ++ steps_errors ctx 0 (first ∷ steps)

abbrev pub vector_errors : ℕ → ConfigPlaybook → List Text
vector_errors i pb = when (not (includes vectors pb.match_rule.vector)) (
    context i pb
    ++ codes ": vector must be one of udp_flood, syn_flood, ack_flood, icmp_flood, unknown")

unfoldable pub playbook_errors : ℕ → List Text → ConfigPlaybook → List Text
unfolding name_errors all_steps_errors
playbook_errors i names pb =
    name_errors (context i pb) names pb.name
    ++ (vector_errors i pb ++ all_steps_errors (context i pb) pb.steps)

-- The loop over the playbooks, from playbook i, with the names seen before it.
unfoldable pub loop : ℕ → List Text → List ConfigPlaybook → List Text
unfolding playbook_errors
loop i names [] = []
loop i names (pb ∷ pbs) = playbook_errors i names pb ++ loop (suc i) (pb.name ∷ names) pbs

unfoldable pub validate_playbooks : List ConfigPlaybook → List Text
unfolding loop
validate_playbooks [] = codes "At least one playbook is required" ∷ []
validate_playbooks (pb ∷ pbs) = loop 0 [] (pb ∷ pbs)
