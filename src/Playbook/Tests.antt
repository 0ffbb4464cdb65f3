-- ===== src/Playbook/Tests.antt =====
-- The editor on small playbooks.
use prefixd.Base.{ℕ, false, Option, none, some, List, [], ◌∷◌, ◌≡◌, ◌≢◌, ◌↔◌, refl}
use prefixd.Base.Text.{Text, codes}
use prefixd.Playbook.{Step, ConfigPlaybook, validate_playbooks, includes, step_checks}
use prefixd.Base.Numbers.{Number, finite}
use prefixd.Playbook.Draft.{
  DraftStep, DraftPlaybook, to_api_playbooks, remove_step, change_step, select_action, Editor,
  mount, add_playbook, adds, nothing, further,
}
use prefixd.Playbook.Draft.Laws.{Changes-IsInRange, IsInRange, remove_step-first}
use prefixd.Playbook.Valid.{AreValid}
use prefixd.Playbook.Loops.{validate_playbooks_iff}

abbrev ids : ℕ → Text
ids n = n ∷ []

abbrev police : Option Number → Step
police confidence = record {
  action = codes "police";
  rate_bps = some (finite false 5000000 0);
  ttl_seconds = finite false 120 0;
  require_confidence_at_least = confidence;
  require_persistence_seconds = none;
}

abbrev flood : List Step → ConfigPlaybook
flood steps = record {
  name = codes "udp";
  match_rule = record { vector = codes "udp_flood"; require_top_ports = none };
  steps = steps;
}

no_errors :
    validate_playbooks (flood (police none ∷ police (some (finite false 1 1)) ∷ []) ∷ []) ≡ []
unfolding validate_playbooks includes step_checks
no_errors = refl

two_errors :
    validate_playbooks
      (flood (police none ∷ []) ∷ flood (police (some (finite false 1 1)) ∷ []) ∷ [])
    ≡ codes "Playbook \"udp\": duplicate name"
      ∷ codes "Playbook \"udp\": first step must not have escalation requirements"
      ∷ []
unfolding validate_playbooks includes step_checks
two_errors = refl

abbrev playbooks : List ConfigPlaybook
playbooks = flood (police none ∷ []) ∷ []

abbrev added : Editor
added = add_playbook ids (mount ids playbooks)

Changes-IsInRange_test : IsInRange added
Changes-IsInRange_test = Changes-IsInRange ids playbooks (further nothing adds)

abbrev plain_step : DraftStep
plain_step = record { id = ids 1; step = police none }

abbrev second_step : DraftStep
second_step = record { id = ids 2; step = police (some (finite false 1 1)) }

abbrev two_steps : DraftPlaybook
two_steps = record {
  id = ids 0;
  name = codes "udp";
  match_rule = record { vector = codes "udp_flood"; require_top_ports = none };
  steps = plain_step ∷ second_step ∷ [];
}

remove_step-first_test :
    let again = record second_step { step = select_action (codes "discard") second_step.step } in
    validate_playbooks (to_api_playbooks (change_step 0 again (remove_step 0 two_steps) ∷ [])) ≢ []
remove_step-first_test =
    remove_step-first two_steps plain_step second_step [] (codes "discard") (finite false 1 1) refl
      refl

validate_playbooks_iff_example : (validate_playbooks playbooks ≡ []) ↔ AreValid playbooks
validate_playbooks_iff_example = validate_playbooks_iff playbooks
