-- ===== src/Admin.antt =====
-- The administration page, frontend/app/(dashboard)/admin/page.tsx: its state, the handlers of its
-- buttons, and the calls that they have under way. A handler runs in two parts, up to the first
-- `await` and from there on; the second part is the completion of its call, with the message of what
-- was thrown, if anything was.
pub mod Invariant
pub mod Dialogs
pub mod Uptime
mod Tests
use prefixd.Base.{
  ◌==◌, ◌||◌, ℕ, suc, ◌+◌, ◌-◌, ◌≤◌, ◌<◌, Bool, true, false, not, ◌&&◌, Option, none, some, List,
  [], ◌∷◌, if◌then◌else◌, ltb, leb, length, In, ◌≡◌,
}
use prefixd.Base.Text.{Text, codes, truthy}
use prefixd.Base.Trim.{trim}
use prefixd.Api.Types.{Role, operator, OperatorInfo}
use prefixd.Api.Endpoints.{
  Request, add_safelist, remove_safelist, reload_config, create_operator, delete_operator,
  change_password,
}

pub data ReloadStatus : Type 0 where
  idle success error : ReloadStatus

pub record AdminPage : Type 0 where
  pub new_prefix : Text
  pub new_reason : Text
  pub is_adding_safelist : Bool
  pub safelist_error2 : Option Text
  pub is_reloading : Bool
  pub reload_status : ReloadStatus
  pub show_create_user : Bool
  pub new_username : Text
  pub new_password : Text
  pub new_role : Role
  pub is_creating_user : Bool
  pub user_error : Option Text
  pub password_target : Option OperatorInfo
  pub new_user_password : Text
  pub is_changing_password : Bool

abbrev pub initial_page : AdminPage
initial_page = record {
  new_prefix = [];
  new_reason = [];
  is_adding_safelist = false;
  safelist_error2 = none;
  is_reloading = false;
  reload_status = idle;
  show_create_user = false;
  new_username = [];
  new_password = [];
  new_role = operator;
  is_creating_user = false;
  user_error = none;
  password_target = none;
  new_user_password = [];
  is_changing_password = false;
}

-- A handler up to its first `await`: the page, and the request, or none where it returns early.
abbrev pub Started : Type 0
Started = AdminPage × Option Request

unfoldable pub handle_add_safelist : AdminPage → Started
unfolding trim
handle_add_safelist s =
    if truthy (trim s.new_prefix)
    then (
      record s { is_adding_safelist = true; safelist_error2 = none },
      some (add_safelist (trim s.new_prefix) (trim s.new_reason) (codes "dashboard")),
    )
    else (s, none)

unfoldable pub safelist_added : Option Text → AdminPage → AdminPage
safelist_added none s = record s { new_prefix = []; new_reason = []; is_adding_safelist = false }
safelist_added (some message) s = record s {
  safelist_error2 = some message;
  is_adding_safelist = false;
}

unfoldable pub safelist_removed : Option Text → AdminPage → AdminPage
safelist_removed none s = s
safelist_removed (some message) s = record s { safelist_error2 = some message }

unfoldable pub handle_reload_config : AdminPage → Started
handle_reload_config s =
    (record s { is_reloading = true; reload_status = idle }, some reload_config)

-- In both cases a timeout is set that makes the status idle again.
unfoldable pub config_reloaded : Option Text → AdminPage → AdminPage
config_reloaded none s = record s { reload_status = success; is_reloading = false }
config_reloaded (some message) s = record s { reload_status = error; is_reloading = false }

abbrev pub reload_timeout : AdminPage → AdminPage
reload_timeout s = record s { reload_status = idle }

unfoldable pub handle_create_user : AdminPage → Started
unfolding trim
handle_create_user s =
    if not (truthy (trim s.new_username)) || not (truthy (trim s.new_password))
    then (s, none)
    else (
      record s { is_creating_user = true; user_error = none },
      some (create_operator (trim s.new_username) s.new_password s.new_role),
    )

unfoldable pub user_created : Option Text → AdminPage → AdminPage
user_created none s = record s {
  show_create_user = false;
  new_username = [];
  new_password = [];
  new_role = operator;
  is_creating_user = false;
}
user_created (some message) s = record s { user_error = some message; is_creating_user = false }

unfoldable pub user_deleted : Option Text → AdminPage → AdminPage
user_deleted none s = s
user_deleted (some message) s = record s { user_error = some message }

unfoldable pub handle_change_password : AdminPage → Started
unfolding trim
handle_change_password s = elim s.password_target [
  | none ↦ (s, none)
  | some target ↦
      if truthy (trim s.new_user_password)
      then (
        record s { is_changing_password = true; user_error = none },
        some (change_password target.operator_id s.new_user_password),
      )
      else (s, none)
]

unfoldable pub password_changed : Option Text → AdminPage → AdminPage
password_changed none s = record s {
  password_target = none;
  new_user_password = [];
  is_changing_password = false;
}
password_changed (some message) s = record s {
  user_error = some message;
  is_changing_password = false;
}

-- The buttons that are disabled while a call of theirs is under way.
unfoldable pub add_is_enabled : AdminPage → Bool
unfolding trim
add_is_enabled s = truthy (trim s.new_prefix) && not s.is_adding_safelist

unfoldable pub create_is_enabled : AdminPage → Bool
unfolding trim
create_is_enabled s =
    truthy (trim s.new_username) && leb 8 (length s.new_password) && not s.is_creating_user

unfoldable pub change_is_enabled : AdminPage → Bool
change_is_enabled s = leb 8 (length s.new_user_password) && not s.is_changing_password

pub data Call : Type 0 where
  adding removing reloading creating deleting changing : Call

-- The page, its calls under way, and the requests that it has sent, the last one first.
pub record World : Type 0 where
  pub page : AdminPage
  pub calls : List Call
  pub sent : List Request

abbrev pub initial : World
initial = record { page = initial_page; calls = []; sent = [] }

-- A handler that was called: its request, if there is one, is under way.
abbrev pub started : Call → World → Started → World
started call w (page, none) = record w { page = page }
started call w (page, some request) = record {
  page = page;
  calls = call ∷ w.calls;
  sent = request ∷ w.sent;
}

abbrev pub number : Call → ℕ
number adding = 0
number removing = 1
number reloading = 2
number creating = 3
number deleting = 4
number changing = 5

abbrev pub same_call : Call → Call → Bool
same_call c d = number c == number d

-- One call of a kind is over.
unfoldable pub without : Call → List Call → List Call
without call [] = []
without call (c ∷ l) = let rest = without call l in if same_call c call then l else c ∷ rest

unfoldable pub completed : Call → Option Text → AdminPage → AdminPage
unfolding safelist_added safelist_removed config_reloaded user_created user_deleted password_changed
completed adding thrown s = safelist_added thrown s
completed removing thrown s = safelist_removed thrown s
completed reloading thrown s = config_reloaded thrown s
completed creating thrown s = user_created thrown s
completed deleting thrown s = user_deleted thrown s
completed changing thrown s = password_changed thrown s

-- The fields and the dialogs.
pub data Edit : Type 0 where
  set_new_prefix set_new_reason set_new_username set_new_password set_new_user_password :
      Text → Edit
  set_new_role : Role → Edit
  set_show_create_user : Bool → Edit
  set_password_target : Option OperatorInfo → Edit

unfoldable pub edit : Edit → AdminPage → AdminPage
edit (set_new_prefix t) s = record s { new_prefix = t }
edit (set_new_reason t) s = record s { new_reason = t }
edit (set_new_username t) s = record s { new_username = t }
edit (set_new_password t) s = record s { new_password = t }
edit (set_new_user_password t) s = record s { new_user_password = t }
edit (set_new_role r) s = record s { new_role = r }
edit (set_show_create_user b) s = record s { show_create_user = b }
edit (set_password_target o) s = record s { password_target = o }

-- What can happen to the page, in any order.
pub data Step (w : World) : World → Type 0 where
  edits : (e : Edit) → Step w (record w { page = edit e w.page })
  adds : add_is_enabled w.page ≡ true → Step w (started adding w (handle_add_safelist w.page))
  removes :
      (encode_uri_component : Text → Text) (prefix : Text)
      → Step w (started removing w (w.page, some (remove_safelist encode_uri_component prefix)))
  reloads : w.page.is_reloading ≡ false → Step w (started reloading w (handle_reload_config w.page))
  creates :
      create_is_enabled w.page ≡ true → Step w (started creating w (handle_create_user w.page))
  deletes :
      (op : OperatorInfo)
      → Step w (started deleting w (w.page, some (delete_operator op.operator_id)))
  changes :
      change_is_enabled w.page ≡ true → Step w (started changing w (handle_change_password w.page))
  completes :
      (call : Call) (thrown : Option Text)
      → In call w.calls
      → Step w (record w { page = completed call thrown w.page; calls = without call w.calls })
  lapses : Step w (record w { page = reload_timeout w.page })

pub data Reach (w : World) : World → Type 0 where
  here : Reach w w
  next : {v u : World} → Reach w v → Step v u → Reach w u
