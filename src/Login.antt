-- ===== src/Login.antt =====
-- The page that signs operators in, frontend/app/login/page.tsx. `useAuth` is the state of
-- Session.antt, and the health request that of Permissions.antt.
pub mod Laws
mod Tests
use prefixd.Base.{Bool, true, false, not, ◌&&◌, ◌||◌, Option, none, some, List, [], ◌∷◌}
use prefixd.Base.Text.{Text, codes}
use prefixd.Base.Http.{Fetched}
use prefixd.Session.{Operator, Auth, is_authenticated, logged_in, step}
use prefixd.Permissions.{Health, use_permissions}

pub record LoginPage : Type 0 where
  pub username : Text
  pub password : Text
  pub error : Option Text
  pub is_loading : Bool

abbrev pub mount : LoginPage
mount = record { username = []; password = []; error = none; is_loading = false }

-- Whether the effect pushes "/".
unfoldable pub leaves : Auth → Health → Bool
unfolding use_permissions
leaves a h = let p = use_permissions a h in p.settled && (is_authenticated a || p.auth_disabled)

-- `handleSubmit` up to its `await`.
unfoldable pub handle_submit : LoginPage → LoginPage
handle_submit s = record s { error = none; is_loading = true }

-- The rest of it, by what `login` threw: the page, and the addresses that are pushed.
unfoldable pub submitted : Option Text → LoginPage → LoginPage × List Text
submitted none s = (record s { is_loading = false }, codes "/" ∷ [])
submitted (some message) s = (record s { error = some message; is_loading = false }, [])

-- A whole attempt, with what `fetch` gave back to `login`: the provider, the page, and the pushes.
unfoldable pub attempt : Fetched Operator → Auth → LoginPage → Auth × LoginPage × List Text
unfolding step handle_submit submitted
attempt r a s =
    let (a', thrown) = step a (logged_in r) in
    let (s', pushed) = submitted thrown (handle_submit s) in (a', s', pushed)
