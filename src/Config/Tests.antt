-- ===== src/Config/Tests.antt =====
-- The page of the configuration with one playbook.
use prefixd.Base.{
  ℕ, ◌≢◌, true, false, none, some, List, [], ◌∷◌, ◌++◌, ◌≡◌, refl, arith, if◌then◌else◌, any, leb,
}
use prefixd.Base.Text.{Text, codes}
use prefixd.Base.Http.{Result, ok, err}
use prefixd.Base.Numbers.{nan, finite}
use prefixd.Playbook.{ConfigPlaybook, validate_playbooks}
use prefixd.Playbook.Yaml.{Value, Browser, undefined, document, apply_is_enabled, handle_save}
use prefixd.Config.{
  Loaded, yaml, yaml_view, ConfigPage, World, Reach, here, next, saves, views, types, opened,
  clicked, click_save, set_playbook_view, playbooks_saved, mounted, reload_ended, pass, fire_due,
  remounted, handle_save_playbooks, view_of,
}
use prefixd.Config.Saving.{Reach-IsSaveSafe, IsSaveSafe}
use prefixd.Config.Laws.{save_ended_lem, reload_ended-pass}

abbrev ids : ℕ → Text
ids n = n ∷ []

-- The names, each after a 0.
abbrev stringify : List ConfigPlaybook → Text
stringify [] = []
stringify (pb ∷ l) = 0 ∷ pb.name ++ stringify l

abbrev browser : Browser
browser = record {
  number_text = λ n. codes "1";
  number_of = λ t. nan;
  compound_text = λ v. err (codes "Cannot convert object to primitive value");
  compound_number = λ v. ok nan;
  type_error = codes "Cannot read properties of undefined";
}

abbrev named : Text → List ConfigPlaybook
named name =
    record {
      name = name;
      match_rule = record { vector = codes "udp_flood"; require_top_ports = none };
      steps =
          record {
            action = codes "discard";
            rate_bps = none;
            ttl_seconds = finite false 120 0;
            require_confidence_at_least = none;
            require_persistence_seconds = none;
          }
          ∷ [];
    }
    ∷ []

-- A library that knows one document, and fails on the empty text.
abbrev dump : Value → Text
dump v = codes "playbooks"

abbrev load : Text → Result Value
unfolding document
load [] = ok undefined
load (c ∷ t) = ok (document (named (codes "tcp")))

abbrev loaded_once : Loaded
loaded_once = record {
  playbooks = named (codes "udp");
  loaded_at = codes "8:00";
  json = stringify (named (codes "udp"));
}

abbrev loaded_again : Loaded
loaded_again = record {
  playbooks = named (codes "tcp");
  loaded_at = codes "9:00";
  json = stringify (named (codes "tcp"));
}

abbrev start : World ids stringify browser dump load
start = opened ids stringify browser dump load loaded_once

abbrev in_yaml : World ids stringify browser dump load
in_yaml = record start {
  page = set_playbook_view ids stringify browser dump load yaml_view start.page;
}

abbrev typed : World ids stringify browser dump load
typed = record in_yaml { page = record in_yaml.page { editor = yaml (codes "x") } }

abbrev saved : World ids stringify browser dump load
saved =
    clicked ids stringify browser dump load typed
      (click_save ids stringify browser dump load typed.page)

one_request :
    (saved.under_way ≡ 1 ∷ [])
    × (saved.page.saving ≡ true)
    × ((click_save ids stringify browser dump load saved.page).1 ≡ none)
unfolding set_playbook_view remounted mounted click_save handle_save_playbooks apply_is_enabled
    handle_save load validate_playbooks
one_request = (refl, refl, refl)

is_yaml : in_yaml.page.editor ≡ yaml (codes "playbooks")
unfolding set_playbook_view remounted mounted
is_yaml = refl

saved-Reach : Reach ids stringify browser dump load start saved
saved-Reach =
    next (next (next here (views yaml_view)) (types (codes "playbooks") (codes "x") is_yaml)) saves

Reach-IsSaveSafe_example : IsSaveSafe ids stringify browser dump load saved
Reach-IsSaveSafe_example = Reach-IsSaveSafe ids stringify browser dump load loaded_once saved-Reach

another : loaded_again.loaded_at ≢ saved.page.loaded.loaded_at
unfolding set_playbook_view remounted mounted click_save handle_save_playbooks apply_is_enabled
    handle_save load validate_playbooks
another e = ground arith

save_ended_lem_example :
    let failed =
      (playbooks_saved ids stringify browser dump load 1
        (some (codes "HTTP 500"))
        none
        saved.page).0 in
    let done =
      (playbooks_saved ids stringify browser dump load 1 none (some loaded_again) saved.page).0 in
    (failed ≡ record saved.page { saving = false })
    × (done.editor
        ≡ mounted ids stringify browser dump load (view_of saved.page.editor) loaded_again)
    × (done.loaded ≡ loaded_again)
    × (done.saving ≡ false)
save_ended_lem_example =
    save_ended_lem ids stringify browser dump load 1 (codes "HTTP 500") none loaded_again saved.page
      another

-- A reload succeeds at 0, and one fails at 4000.
abbrev reloaded_once : ConfigPage
reloaded_once = reload_ended 0 none start.page

reload_ended-pass_test :
    (pass 5000 (reload_ended 4000 (some (codes "HTTP 500")) reloaded_once)).reload_result ≡ (
      if any (λ due. leb due 5000) reloaded_once.timeouts
      then none
      else some (codes "Reload failed: " ++ codes "HTTP 500"))
reload_ended-pass_test = reload_ended-pass 4000 5000 (codes "HTTP 500") reloaded_once

gone : (pass 5000 (reload_ended 4000 (some (codes "HTTP 500")) reloaded_once)).reload_result ≡ none
unfolding reload_ended fire_due
gone = refl
