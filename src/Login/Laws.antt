-- ===== src/Login/Laws.antt =====
-- Signing in on frontend/app/login/page.tsx, and the gate behind it.
use prefixd.Base.{true, false, not, arith, ◌≡◌, ◌↔◌}
use prefixd.Base.Text.{Text}
use prefixd.Session.{Auth}
use prefixd.Permissions.{Health, use_permissions, require_auth, redirects, children}
use prefixd.Login.{leaves}

-- The page leaves exactly where the gate renders what is behind it, so the two never send an operator
-- back and forth; and once both requests have resolved, either the page leaves or the gate redirects.
pub leaves_iff :
    (a : Auth) (h : Health)
    → ((leaves a h ≡ true) ↔ (require_auth a h ≡ children))
      × ((leaves a h ≡ true) → redirects a h ≡ false)
      × ((use_permissions a h).settled ≡ true → leaves a h ≡ not (redirects a h))
unfolding leaves require_auth redirects use_permissions
leaves_iff a h = (ground arith, ground arith, ground arith)
