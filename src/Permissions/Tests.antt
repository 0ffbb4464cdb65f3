-- ===== src/Permissions/Tests.antt =====
-- The permissions and the gate on concrete operators, after the cases of
-- frontend/__tests__/use-permissions.test.ts.
use prefixd.Base.{true, false, none, some, [], ◌≡◌, ◌⊎◌, ◌↔◌, refl}
use prefixd.Base.Text.{Text, codes}
use prefixd.Base.Http.{ok, Fetched, responded}
use prefixd.Session.{OperatorRole, admin, viewer, Operator, Auth, initial}
use prefixd.Permissions.{Health, use_permissions, require_auth, redirects, spinner, children}
use prefixd.Permissions.Laws.{AuthOff, SignedInAs, admin_permissions_iff}
use prefixd.Permissions.Gate.{BothOver, IsSignedIn, require_auth_lem}

abbrev ann : OperatorRole → Operator
ann role = record { id = codes "op-1"; username = codes "ann"; role = role }

abbrev signed_in : OperatorRole → Auth
signed_in role = record { operator = some (ann role); is_loading = false }

abbrev healthy : Text → Health
healthy mode = record {
  data_received = some (record { status = codes "ok"; version = codes "0.10.1"; auth_mode = mode });
  is_loading = false;
}

abbrev unheard : Health
unheard = record { data_received = none; is_loading = true }

viewer_denied :
    let p = use_permissions (signed_in viewer) (healthy (codes "credentials")) in
    (p.settled ≡ true)
    × (p.is_viewer ≡ true)
    × (p.can_withdraw ≡ false)
    × (p.can_manage_users ≡ false)
unfolding use_permissions
viewer_denied = (refl, refl, refl, refl)

auth_off_grants :
    let p =
      use_permissions (record { operator = none; is_loading = false }) (healthy (codes "none")) in
    (p.auth_disabled ≡ true) × (p.can_manage_users ≡ true) × (p.role ≡ some admin)
unfolding use_permissions
auth_off_grants = (refl, refl, refl)

gate_tests :
    (require_auth initial unheard ≡ spinner)
    × (require_auth (signed_in viewer) (healthy (codes "credentials")) ≡ children)
    × (redirects (record { operator = none; is_loading = false }) (healthy (codes "credentials"))
        ≡ true)
unfolding require_auth redirects
gate_tests = (refl, refl, refl)

-- The health request has not been answered.
admin_permissions_iff_example :
    let p = use_permissions (signed_in admin) unheard in
    ((p.settled ≡ false) × (p.is_admin ≡ true))
    ↔ (((false ≡ true) ⊎ (true ≡ true)) × SignedInAs admin (signed_in admin))
admin_permissions_iff_example = (admin_permissions_iff (signed_in admin) unheard).6

abbrev me : Fetched Operator
me = responded (record { status = 200; text = []; json = ok (ann admin) })

require_auth_lem_example :
    let h = healthy (codes "credentials") in
    (require_auth (signed_in viewer) h ≡ children) ↔ (
      BothOver (signed_in viewer) h
      × (AuthOff (signed_in viewer) h ⊎ IsSignedIn (signed_in viewer)))
require_auth_lem_example = (require_auth_lem (signed_in viewer) (healthy (codes "credentials"))).1
