-- ===== src/Playbook/Yaml/Laws.antt =====
-- What the YAML editor of frontend/components/dashboard/playbook-yaml-editor.tsx shows and applies.
use prefixd.Base.{
  Bool, true, false, Option, none, some, List, [], ◌∷◌, map, or_else, arith, ◌≡◌, refl,
}
use prefixd.Base.Text.{Text, codes}
use prefixd.Base.Http.{Result, ok, err}
use prefixd.Playbook.{Number, Step, ConfigPlaybook}
use prefixd.Playbook.Valid.{AreValid}
use prefixd.Playbook.Loops.{validate_playbooks_iff}
use prefixd.Playbook.Yaml.{
  parsed_of, errors_of, is_empty, get_if, is_true, Value, values, Browser, step_value, match_value,
  playbook_value, document, step_of, steps_of, playbook_of, playbooks_of, parse_yaml,
  playbooks_to_yaml, all_errors, apply_is_enabled, handle_save,
}

-- A playbook as it comes back: whether it requires top ports is always given.
abbrev pub settled : ConfigPlaybook → ConfigPlaybook
settled p = record p {
  match_rule = record {
    vector = p.match_rule.vector;
    require_top_ports = some (or_else p.match_rule.require_top_ports false);
  };
}

applied :
    (r : Result (List ConfigPlaybook))
    → is_empty (errors_of r) ≡ true
    → (read : List ConfigPlaybook) × (parsed_of r ≡ some read) × AreValid read
applied (ok read) e = (read, refl, (validate_playbooks_iff read).0 (ground arith))
applied (err message) e = absurd (ground arith)

module _ (b : Browser) where
  step_fields :
      (action : Text) (ttl : Number) (rate confidence persistence : Option Number)
      → let s : Step = record {
        action = action;
        rate_bps = rate;
        ttl_seconds = ttl;
        require_confidence_at_least = confidence;
        require_persistence_seconds = persistence;
      } in
        step_of b (step_value s) ≡ ok s
  unfolding step_of step_value
  step_fields action ttl none none none = refl
  step_fields action ttl none none (some p) = refl
  step_fields action ttl none (some c) none = refl
  step_fields action ttl none (some c) (some p) = refl
  step_fields action ttl (some r) none none = refl
  step_fields action ttl (some r) none (some p) = refl
  step_fields action ttl (some r) (some c) none = refl
  step_fields action ttl (some r) (some c) (some p) = refl

  top_ports_back :
      (vector : Text) (required : Option Bool)
      → is_true (
          get_if
            (codes "require_top_ports")
            (match_value (record { vector = vector; require_top_ports = required })))
        ≡ or_else required false
  unfolding match_value
  top_ports_back vector none = refl
  top_ports_back vector (some true) = refl
  top_ports_back vector (some false) = refl

  step_back : (s : Step) → step_of b (step_value s) ≡ ok s
  step_back s =
      step_fields s.action s.ttl_seconds s.rate_bps s.require_confidence_at_least
        s.require_persistence_seconds

  steps_back : (l : List Step) → steps_of b (values step_value l) ≡ ok l
  unfolding steps_of
  steps_back [] = refl
  steps_back (s ∷ l) = rw (step_back s, steps_back l) refl

  playbook_back : (p : ConfigPlaybook) → playbook_of b (playbook_value p) ≡ ok (settled p)
  unfolding playbook_of playbook_value match_value
  playbook_back p =
      rw (steps_back p.steps, top_ports_back p.match_rule.vector p.match_rule.require_top_ports)
        refl

  playbooks_back :
      (l : List ConfigPlaybook) → playbooks_of b (values playbook_value l) ≡ ok (map settled l)
  unfolding playbooks_of
  playbooks_back [] = refl
  playbooks_back (p ∷ l) = rw (playbook_back p, playbooks_back l) refl

  module _ (dump : Value → Text) (load : Text → Result Value) where
    -- The text that the editor starts with is read as the playbooks that it was made from, if the
    -- library reads back what it writes for them; only `require_top_ports` is always given.
    pub parse_yaml-playbooks_to_yaml :
        (playbooks : List ConfigPlaybook)
        → load (dump (document playbooks)) ≡ ok (document playbooks)
        → parse_yaml b dump load (playbooks_to_yaml b dump load playbooks)
          ≡ ok (map settled playbooks)
    unfolding parse_yaml document
    parse_yaml-playbooks_to_yaml playbooks undone = rw (undone, playbooks_back playbooks) refl

    -- Where the button is enabled, what it applies is what was read from the text, valid playbooks.
    pub apply_is_enabled_lem :
        (playbooks : List ConfigPlaybook) (text : Text) (saving : Bool)
        → apply_is_enabled b dump load playbooks text saving ≡ true
        → (read : List ConfigPlaybook) × (handle_save b dump load text ≡ some read) × AreValid read
    unfolding apply_is_enabled all_errors handle_save
    apply_is_enabled_lem playbooks text saving e =
        applied (parse_yaml b dump load text) (ground arith)
