-- ===== src/Playbook/Yaml/Tests.antt =====
-- The YAML editor on one playbook.
use prefixd.Base.{true, false, none, some, List, [], ◌∷◌, map, ◌≡◌, refl}
use prefixd.Base.Text.{Text, codes}
use prefixd.Base.Http.{Result, ok, err}
use prefixd.Base.Numbers.{nan, finite}
use prefixd.Playbook.{ConfigPlaybook, validate_playbooks}
use prefixd.Playbook.Valid.{AreValid}
use prefixd.Playbook.Yaml.{
  Value, Browser, undefined, document, parse_yaml, playbooks_to_yaml, apply_is_enabled, handle_save,
  all_errors,
}
use prefixd.Playbook.Yaml.Laws.{settled, parse_yaml-playbooks_to_yaml, apply_is_enabled_lem}

abbrev browser : Browser
browser = record {
  number_text = λ n. codes "1";
  number_of = λ t. nan;
  compound_text = λ v. err (codes "Cannot convert object to primitive value");
  compound_number = λ v. ok nan;
  type_error = codes "Cannot read properties of undefined";
}

abbrev playbooks : List ConfigPlaybook
playbooks =
    record {
      name = codes "udp";
      match_rule = record { vector = codes "udp_flood"; require_top_ports = none };
      steps =
          record {
            action = codes "discard";
            rate_bps = none;
            ttl_seconds = finite false 120 0;
            require_confidence_at_least = none;
            require_persistence_seconds = none;
          }
          ∷ [];
    }
    ∷ []

-- A library that knows one document, and fails on the empty text.
abbrev dump : Value → Text
dump v = codes "playbooks"

abbrev load : Text → Result Value
unfolding document
load [] = ok undefined
load (c ∷ t) = ok (document playbooks)

parse_yaml-playbooks_to_yaml_example :
    parse_yaml browser dump load (playbooks_to_yaml browser dump load playbooks)
    ≡ ok (map settled playbooks)
unfolding load
parse_yaml-playbooks_to_yaml_example = parse_yaml-playbooks_to_yaml browser dump load playbooks refl

no_list :
    all_errors browser dump load [] ≡ codes "YAML must contain a top-level 'playbooks' array" ∷ []
unfolding all_errors load
no_list = refl

enabled : apply_is_enabled browser dump load playbooks (codes "x") false ≡ true
unfolding apply_is_enabled load validate_playbooks
enabled = refl

apply_is_enabled_lem_test :
    (read : List ConfigPlaybook) × (handle_save browser dump load (codes "x") ≡ some read)
    × AreValid read
apply_is_enabled_lem_test =
    apply_is_enabled_lem browser dump load playbooks (codes "x") false enabled
