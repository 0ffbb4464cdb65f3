-- ===== src/Config.antt =====
-- The page of the configuration, frontend/app/(dashboard)/config/page.tsx, with the editor of
-- frontend/components/dashboard/playbook-editor.tsx or that of
-- frontend/components/dashboard/playbook-yaml-editor.tsx on it, for an administrator to whom the
-- playbooks have been shown. A handler runs in two parts, up to its `await` and from there on.
-- `JSON.stringify` is an argument, as are those of the editors; `createId` counts from the mount.
pub mod Laws
pub mod Saving
mod Tests
use prefixd.Base.{
  ◌≡◌, ℕ, suc, ◌+◌, ◌-◌, Bool, true, false, not, ◌&&◌, Option, none, some, List, [], ◌∷◌, ◌++◌,
  if◌then◌else◌, leb, ◌==◌, ◌≡◌,
}
use prefixd.Base.Text.{Text, codes, same}
use prefixd.Base.Http.{Result}
use prefixd.Api.Endpoints.{Request, reload_config, update_playbooks}
use prefixd.Playbook.{ConfigPlaybook, validate_playbooks}
use prefixd.Playbook.Draft.{Editor, to_api_playbooks, mount, handle_save, Change}
use prefixd.Playbook.Yaml as Yaml
use prefixd.Playbook.Yaml.{Browser, Value, is_empty, playbooks_to_yaml, apply_is_enabled}

-- The playbooks as they were loaded, and the text that `JSON.stringify` makes of them.
pub record Loaded : Type 0 where
  pub playbooks : List ConfigPlaybook
  pub loaded_at : Text
  pub json : Text

-- `hasChanges` and the buttons of the form, by the text of the loaded playbooks.
module _ (stringify : List ConfigPlaybook → Text) where
  unfoldable pub has_changes : (initial_json : Text) → Editor → Bool
  unfolding to_api_playbooks
  has_changes initial_json e = not (same (stringify (to_api_playbooks e.draft)) initial_json)

  unfoldable pub discard_is_enabled : (initial_json : Text) → Editor → (saving : Bool) → Bool
  unfolding has_changes
  discard_is_enabled initial_json e saving = has_changes initial_json e && not saving

  unfoldable pub save_is_enabled : (initial_json : Text) → Editor → (saving : Bool) → Bool
  unfolding has_changes
  save_is_enabled initial_json e saving =
      has_changes initial_json e
      && (is_empty (validate_playbooks (to_api_playbooks e.draft)) && not saving)

pub data View : Type 0 where
  form_view yaml_view : View

-- The editor that is mounted.
pub data Mounted : Type 0 where
  form : Editor → Mounted
  yaml : Text → Mounted

abbrev pub view_of : Mounted → View
view_of (form e) = form_view
view_of (yaml text) = yaml_view

pub record ConfigPage : Type 0 where
  pub reloading : Bool
  pub reload_result : Option Text
  pub saving : Bool
  pub loaded : Loaded
  pub editor : Mounted
  -- How many editors were mounted before this one.
  pub instance_number : ℕ
  -- When the timeouts of `handleReload` are due.
  pub timeouts : List ℕ

unfoldable pub handle_reload : ConfigPage → ConfigPage × Request
handle_reload s = (record s { reloading = true; reload_result = none }, reload_config)

abbrev pub reloaded_text : Text
reloaded_text = codes "Config reloaded successfully"

-- The rest of `handleReload`, by the message of what was thrown.
unfoldable pub reload_ended : (now : ℕ) → Option Text → ConfigPage → ConfigPage
reload_ended now none s = record s {
  reloading = false;
  reload_result = some reloaded_text;
  timeouts = s.timeouts ++ ((now + 5000) ∷ []);
}
reload_ended now (some message) s = record s {
  reloading = false;
  reload_result = some (codes "Reload failed: " ++ message);
}

-- The timeouts that are due fire.
unfoldable pub fire_due : (now : ℕ) → List ℕ → ConfigPage → ConfigPage
fire_due now [] s = record s { timeouts = [] }
fire_due now (due ∷ l) s =
    let cleared = fire_due now l (record s { reload_result = none }) in
    let rest = fire_due now l s in
    if leb due now then cleared else record rest { timeouts = due ∷ rest.timeouts }

abbrev pub pass : (now : ℕ) → ConfigPage → ConfigPage
pass now s = fire_due now s.timeouts s

-- `handleSavePlaybooks` up to its request.
unfoldable pub handle_save_playbooks :
    List ConfigPlaybook → ConfigPage → ConfigPage × Option Request
handle_save_playbooks playbooks s = (record s { saving = true }, some (update_playbooks playbooks))

pub data Toast : Type 0 where
  success error : Text → Toast

module _ (create_id : ℕ → Text) (stringify : List ConfigPlaybook → Text) (b : Browser)
    (dump : Value → Text) (load : Text → Result Value) where
  -- The editor of a view when it is mounted.
  unfoldable pub mounted : View → Loaded → Mounted
  unfolding mount
  mounted form_view loaded = form (mount create_id loaded.playbooks)
  mounted yaml_view loaded = yaml (playbooks_to_yaml b dump load loaded.playbooks)

  unfoldable pub remounted : View → ConfigPage → ConfigPage
  unfolding mounted
  remounted v s = record s { editor = mounted v s.loaded; instance_number = suc s.instance_number }

  -- A change of the view mounts the other editor.
  unfoldable pub set_playbook_view : View → ConfigPage → ConfigPage
  unfolding remounted
  set_playbook_view form_view s = elim s.editor [ form e ↦ s | yaml text ↦ remounted form_view s ]
  set_playbook_view yaml_view s = elim s.editor [ form e ↦ remounted yaml_view s | yaml text ↦ s ]

  -- The playbooks arrive again: their time is the key of the editor, which is mounted anew where it
  -- has changed.
  unfoldable pub data_arrived : Loaded → ConfigPage → ConfigPage
  unfolding remounted
  data_arrived loaded s =
      if same loaded.loaded_at s.loaded.loaded_at
      then record s { loaded = loaded }
      else remounted (view_of s.editor) (record s { loaded = loaded })

  -- A click on "Save All" or on "Apply".
  unfoldable pub click_save : ConfigPage → ConfigPage × Option Request
  unfolding save_is_enabled handle_save_playbooks
  click_save s = elim s.editor [
    | form e ↦
        if save_is_enabled stringify s.loaded.json e s.saving
        then handle_save_playbooks (to_api_playbooks e.draft) s
        else (s, none)
    | yaml text ↦
        if apply_is_enabled b dump load s.loaded.playbooks text s.saving
        then elim (Yaml.handle_save b dump load text) [
          | none ↦ (s, none)
          | some read ↦ handle_save_playbooks read s
        ]
        else (s, none)
  ]

  -- What the editor that called `onSave` does when it resolved; one that is no longer mounted, and the
  -- other editor, do nothing.
  abbrev pub save_seen : (caller : ℕ) → ConfigPage → ConfigPage
  save_seen caller s = elim s.editor [
    | form e ↦
        if s.instance_number == caller then record s { editor = form (handle_save true e) } else s
    | yaml text ↦ s
  ]

  -- The rest of `handleSavePlaybooks` and of the editor that called it: what the request threw, or what
  -- loading the playbooks again gave, where it did not fail.
  unfoldable pub playbooks_saved :
      (caller : ℕ) → Option Text → Option Loaded → ConfigPage → ConfigPage × Toast
  unfolding data_arrived
  playbooks_saved caller (some message) again s = (record s { saving = false }, error message)
  playbooks_saved caller none none s = (
    save_seen caller (record s { saving = false }),
    success (codes "Playbooks saved and reloaded"),
  )
  playbooks_saved caller none (some loaded) s = (
    save_seen caller (record (data_arrived loaded s) { saving = false }),
    success (codes "Playbooks saved and reloaded"),
  )

  -- The page, the editors whose saves are under way, and the requests of all its saves, the last one first.
  pub record World : Type 0 where
    pub page : ConfigPage
    pub under_way : List ℕ
    pub sent : List Request

  abbrev pub clicked : World → ConfigPage × Option Request → World
  clicked w (page, none) = record w { page = page }
  clicked w (page, some request) = record {
    page = page;
    under_way = w.page.instance_number ∷ w.under_way;
    sent = request ∷ w.sent;
  }

  -- What can happen to the page.
  pub data Step (w : World) : World → Type 0 where
    saves : Step w (clicked w (click_save w.page))
    ends :
        (thrown : Option Text) (again : Option Loaded) (caller : ℕ) (rest : List ℕ)
        → w.under_way ≡ caller ∷ rest
        → Step w
            (record w { page = (playbooks_saved caller thrown again w.page).0; under_way = rest })
    arrives : (loaded : Loaded) → Step w (record w { page = data_arrived loaded w.page })
    views : (v : View) → Step w (record w { page = set_playbook_view v w.page })
    changes :
        (e f : Editor)
        → w.page.editor ≡ form e
        → Change create_id e f
        → Step w (record w { page = record w.page { editor = form f } })
    types :
        (text typed : Text)
        → w.page.editor ≡ yaml text
        → Step w (record w { page = record w.page { editor = yaml typed } })
    reloads : Step w (record w { page = (handle_reload w.page).0 })
    reloaded :
        (now : ℕ) (thrown : Option Text)
        → Step w (record w { page = reload_ended now thrown w.page })
    passes : (now : ℕ) → Step w (record w { page = pass now w.page })

  -- The page for playbooks that have just been loaded.
  abbrev pub opened : Loaded → World
  opened loaded = record {
    page = record {
      reloading = false;
      reload_result = none;
      saving = false;
      loaded = loaded;
      editor = mounted form_view loaded;
      instance_number = 0;
      timeouts = [];
    };
    under_way = [];
    sent = [];
  }

  pub data Reach (w : World) : World → Type 0 where
    here : Reach w w
    next : {v u : World} → Reach w v → Step v u → Reach w u
