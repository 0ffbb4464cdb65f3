-- ===== src/Permissions.antt =====
-- What the signed-in operator may do: frontend/hooks/use-permissions.ts, and the gate around every
-- page, frontend/components/require-auth.tsx.
-- `useAuth` is the state of Session.antt; `useHealth` is the answer of the health request.
pub mod Laws
pub mod Gate
mod Tests
use prefixd.Base.{Bool, true, false, not, ◌&&◌, ◌||◌, Option, none, some, if◌then◌else◌}
use prefixd.Base.Text.{Text, codes, same}
use prefixd.Session.{OperatorRole, admin, operator, viewer, Operator, Auth, is_authenticated}

-- The data of `getHealth`, and the state of the request.
pub record PublicHealthResponse : Type 0 where
  pub status : Text
  pub version : Text
  pub auth_mode : Text

pub record Health : Type 0 where
  pub data_received : Option PublicHealthResponse
  pub is_loading : Bool

pub record Permissions : Type 0 where
  pub settled : Bool
  pub auth_disabled : Bool
  pub is_admin : Bool
  pub is_operator : Bool
  pub is_viewer : Bool
  pub can_withdraw : Bool
  pub can_manage_safelist : Bool
  pub can_manage_users : Bool
  pub can_reload_config : Bool
  pub can_edit_playbooks : Bool
  pub can_edit_alerting : Bool
  pub role : Option OperatorRole

-- `operator?.role`.
abbrev pub role_of : Option Operator → Option OperatorRole
role_of none = none
role_of (some o) = some o.role

-- `role === "…"`.
abbrev pub is_role : OperatorRole → Option OperatorRole → Bool
is_role r none = false
is_role admin (some admin) = true
is_role operator (some operator) = true
is_role viewer (some viewer) = true
is_role r (some s) = false

-- `health?.auth_mode === "none"`.
abbrev pub mode_is_none : Option PublicHealthResponse → Bool
mode_is_none none = false
mode_is_none (some h) = same h.auth_mode (codes "none")

unfoldable pub use_permissions : Auth → Health → Permissions
use_permissions a h =
    let role = role_of a.operator in
    let settled = not a.is_loading && not h.is_loading in
    let auth_disabled = settled && mode_is_none h.data_received in
    record {
      settled = settled;
      auth_disabled = auth_disabled;
      is_admin = auth_disabled || is_role admin role;
      is_operator = auth_disabled || is_role operator role || is_role admin role;
      is_viewer =
          auth_disabled || is_role viewer role || is_role operator role || is_role admin role;
      can_withdraw = auth_disabled || is_role admin role || is_role operator role;
      can_manage_safelist = auth_disabled || is_role admin role;
      can_manage_users = auth_disabled || is_role admin role;
      can_reload_config = auth_disabled || is_role admin role;
      can_edit_playbooks = auth_disabled || is_role admin role;
      can_edit_alerting = auth_disabled || is_role admin role;
      role = if auth_disabled then some admin else role;
    }

-- What `RequireAuth` renders.
pub data Rendered : Type 0 where
  spinner children nothing : Rendered

unfoldable pub require_auth : Auth → Health → Rendered
unfolding use_permissions
require_auth a h =
    let p = use_permissions a h in
    if not p.settled || a.is_loading
    then spinner
    else if p.auth_disabled
    then children
    else if not (is_authenticated a)
    then nothing
    else children

-- Whether its effect pushes "/login".
unfoldable pub redirects : Auth → Health → Bool
unfolding use_permissions
redirects a h =
    let p = use_permissions a h in p.settled && (not p.auth_disabled && not (is_authenticated a))
