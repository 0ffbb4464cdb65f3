-- ===== src/Playbook/Loops.antt =====
-- `validatePlaybooks` of frontend/components/dashboard/playbook-editor.tsx against the predicate of
-- valid playbooks.
use prefixd.Base.{
  ℕ, suc, Bool, false, not, ◌&&◌, List, [], ◌∷◌, ◌++◌, All, In, arith, ◌≡◌, ◌↔◌, refl, inl, inr,
  Bool-cases, sym,
}
use prefixd.Base.Text.{Text, codes, same, same_iff}
use prefixd.Base.Decimal.{to_decimal}
use prefixd.Playbook.{
  Step, ConfigPlaybook, vectors, actions, includes, report, step_checks, context, name_errors,
  rate_is_wrong, step_errors, steps_errors, all_steps_errors, playbook_errors, vector_errors, loop,
  validate_playbooks,
}
use prefixd.Playbook.Valid.{
  IsGiven, IsValidStep, AreValidSteps, IsValidPlaybook, AreDistinct, AreValid, names_of,
}
use prefixd.Base.Numbers.{IsPositive}
use prefixd.Playbook.Checks.{
  append_empty, when_empty, includes_iff, ttl_iff, rate_iff, confidence_iff, persistence_iff,
  name_iff,
}

report_iff :
    (l : List (Bool × Text)) → (report l ≡ []) ↔ All {A = Bool × Text} (λ check. check.0 ≡ false) l
unfolding report
report_iff [] = (λ e. tt, λ h. refl)
report_iff ((c, message) ∷ l) = ground (arith, report_iff l)

known_iff : (l : List Text) (x : Text) → (not (includes l x) ≡ false) ↔ In x l
known_iff l x = ground (arith, includes_iff l x)

police_iff :
    (step : Step)
    → ((same step.action (codes "police") && rate_is_wrong step.rate_bps) ≡ false)
      ↔ (step.action ≡ codes "police" → IsGiven IsPositive step.rate_bps)
police_iff step = (
  λ e police. (rate_iff step.rate_bps).0 (ground (arith, same_iff step.action (codes "police"))),
  λ h. elim (Bool-cases (same step.action (codes "police"))) [
    | inl police ↦
        ground
          (arith, (rate_iff step.rate_bps).1 (h ((same_iff step.action (codes "police")).0 police)))
    | inr other ↦ ground arith
  ],
)

step_iff : (sctx : Text) (step : Step) → (step_errors sctx step ≡ []) ↔ IsValidStep step
unfolding step_errors step_checks
step_iff sctx step = (
  λ e.
      let (action_known, (ttl, (rate, (confidence, (persistence, done))))) =
        (report_iff (step_checks sctx step)).0 e in
      record {
        action_known = (known_iff actions step.action).0 action_known;
        ttl = (ttl_iff step.ttl_seconds).0 ttl;
        rate = (police_iff step).0 rate;
        confidence = (confidence_iff step.require_confidence_at_least).0 confidence;
        persistence = (persistence_iff step.require_persistence_seconds).0 persistence;
      },
  λ v. (report_iff (step_checks sctx step)).1 (
    (known_iff actions step.action).1 v.action_known,
    (
      (ttl_iff step.ttl_seconds).1 v.ttl,
      (
        (police_iff step).1 v.rate,
        (
          (confidence_iff step.require_confidence_at_least).1 v.confidence,
          ((persistence_iff step.require_persistence_seconds).1 v.persistence, tt),
        ),
      ),
    ),
  ),
)

steps_iff :
    (ctx : Text) (j : ℕ) (steps : List Step)
    → (steps_errors ctx j steps ≡ []) ↔ All IsValidStep steps
unfolding steps_errors
steps_iff ctx j [] = (λ e. tt, λ h. refl)
steps_iff ctx j (step ∷ steps) = ground (
  arith,
  append_empty (step_errors (ctx ++ codes " step " ++ to_decimal (suc j)) step)
      (steps_errors ctx (suc j) steps),
  step_iff (ctx ++ codes " step " ++ to_decimal (suc j)) step,
  steps_iff ctx (suc j) steps,
)

all_steps_iff :
    (ctx : Text) (steps : List Step) → (all_steps_errors ctx steps ≡ []) ↔ AreValidSteps steps
unfolding all_steps_errors
all_steps_iff ctx [] = (λ e. absurd (ground arith), λ h. absurd h)
all_steps_iff ctx (first ∷ steps) = ground (arith, steps_iff ctx 0 (first ∷ steps))

playbook_iff :
    (i : ℕ) (names : List Text) (pb : ConfigPlaybook)
    → (playbook_errors i names pb ≡ []) ↔ (IsValidPlaybook pb × (In pb.name names → ⊥))
unfolding playbook_errors
playbook_iff i names pb =
    let name = name_iff (context i pb) names pb.name in
    let vector = known_iff vectors pb.match_rule.vector in
    let steps = all_steps_iff (context i pb) pb.steps in
    (
      λ e.
          let (no_name_errors, rest) =
            (append_empty (name_errors (context i pb) names pb.name)
                (vector_errors i pb ++ all_steps_errors (context i pb) pb.steps)).0
              e in
          let (named, short, new) = name.0 no_name_errors in
          let (no_vector_errors, no_step_errors) =
            (append_empty (vector_errors i pb) (all_steps_errors (context i pb) pb.steps)).0 rest in
          (
            record {
              named = named;
              short = short;
              vector_known = vector.0 ((when_empty _ _).0 no_vector_errors);
              steps_valid = steps.0 no_step_errors;
            },
            new,
          ),
      λ (v, new).
          rw (name.1 (v.named, v.short, new), vector.1 v.vector_known, steps.1 v.steps_valid) refl,
    )

-- None of the names was seen before.
abbrev AreNew : List Text → List Text → Type 0
AreNew seen [] = Unit
AreNew seen (x ∷ l) = (In x seen → ⊥) × AreNew (x ∷ seen) l

loop_iff :
    (i : ℕ) (names : List Text) (pbs : List ConfigPlaybook)
    → (loop i names pbs ≡ []) ↔ (All IsValidPlaybook pbs × AreNew names (names_of pbs))
unfolding loop
loop_iff i names [] = (λ e. (tt, tt), λ h. refl)
loop_iff i names (pb ∷ pbs) = ground (
  arith,
  append_empty (playbook_errors i names pb) (loop (suc i) (pb.name ∷ names) pbs),
  playbook_iff i names pb,
  loop_iff (suc i) (pb.name ∷ names) pbs,
)

unseen_after :
    (x : Text) (seen l : List Text)
    → All (λ y. In y (x ∷ seen) → ⊥) l ↔ ((In x l → ⊥) × All (λ y. In y seen → ⊥) l)
unseen_after x seen [] = (λ h. ((λ m. m), tt), λ h. tt)
unseen_after x seen (y ∷ l) = (
  λ h.
      let rest = (unseen_after x seen l).0 h.1 in
      (
        λ m. elim m [ inl e ↦ h.0 (inl (sym e)) | inr there ↦ rest.0 there ],
        ((λ m. h.0 (inr m)), rest.1),
      ),
  λ h. (
    λ m. elim m [ inl e ↦ h.0 (inl (sym e)) | inr there ↦ h.1.0 there ],
    (unseen_after x seen l).1 ((λ m. h.0 (inr m)), h.1.1),
  ),
)

new_iff : (seen l : List Text) → AreNew seen l ↔ (AreDistinct l × All (λ y. In y seen → ⊥) l)
new_iff seen [] = (λ h. (tt, tt), λ h. tt)
new_iff seen (x ∷ l) = (
  λ h.
      let (distinct, unseen) = (new_iff (x ∷ seen) l).0 h.1 in
      let (other, old) = (unseen_after x seen l).0 unseen in ((other, distinct), (h.0, old)),
  λ h. (h.1.0, (new_iff (x ∷ seen) l).1 (h.0.1, (unseen_after x seen l).1 (h.0.0, h.1.1))),
)

nothing_seen : (l : List Text) → All (λ y. In y [] → ⊥) l
nothing_seen [] = tt
nothing_seen (x ∷ l) = ((λ m. m), nothing_seen l)

-- The editor finds no error exactly where the playbooks are valid: there is one at least, their names
-- are distinct, not blank and of at most 128 units, their vectors and actions are known, each has a
-- first step that asks for no escalation, each TTL is finite and from 1 to 86400, each rate of a step
-- that polices is finite and above 0, each confidence asked for is from 0 to 1, and each persistence
-- asked for is finite and from 0 on.
pub validate_playbooks_iff :
    (pbs : List ConfigPlaybook) → (validate_playbooks pbs ≡ []) ↔ AreValid pbs
unfolding validate_playbooks
validate_playbooks_iff [] = (λ e. absurd (ground arith), λ h. absurd h)
validate_playbooks_iff (pb ∷ pbs) =
    let names : List Text = names_of (pb ∷ pbs) in
    let checked = loop_iff 0 [] (pb ∷ pbs) in
    (
      λ e. let (valid, new) = checked.0 e in (valid, ((new_iff [] names).0 new).0),
      λ h. checked.1 (h.0, (new_iff [] names).1 (h.1, nothing_seen names)),
    )
