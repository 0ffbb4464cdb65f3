-- ===== src/Admin/Tests.antt =====
-- The administration page on small runs.
use prefixd.Base.{true, none, some, [], arith, ◌≡◌, refl}
use prefixd.Base.Text.{Text, codes}
use prefixd.Base.Trim.{trim}
use prefixd.Api.Types.{OperatorInfo, operator}
use prefixd.Api.Endpoints.{change_password}
use prefixd.Admin.{
  set_password_target, initial_page, World, initial, started, adding, edit, set_new_prefix,
  set_new_user_password, handle_add_safelist, handle_change_password, password_changed,
  add_is_enabled, change_is_enabled, here, next, edits, adds,
}
use prefixd.Admin.Invariant.{IsInStep, Reach-IsInStep}
use prefixd.Admin.Dialogs.{abandoned, carried_password}

abbrev typed_prefix : World
typed_prefix = record initial { page = edit (set_new_prefix (codes " 192.0.2.0/24")) initial_page }

abbrev adding_prefix : World
adding_prefix = started adding typed_prefix (handle_add_safelist typed_prefix.page)

add_enabled : add_is_enabled typed_prefix.page ≡ true
unfolding add_is_enabled edit
add_enabled = refl

Reach-IsInStep_example : IsInStep adding_prefix
Reach-IsInStep_example =
    Reach-IsInStep
      (next (next here (edits (set_new_prefix (codes " 192.0.2.0/24")))) (adds add_enabled))

abbrev user : Text → OperatorInfo
user id = record {
  operator_id = id;
  username = id;
  role = operator;
  created_at = codes "2026-01-01T00:00:00Z";
  created_by = none;
  last_login_at = none;
}

carried_password_test :
    let reopened =
      edit
        (set_password_target (some (user (codes "bob"))))
        (abandoned (user (codes "alice")) (codes "correct horse") initial_page) in
    (change_is_enabled reopened ≡ true)
    × ((handle_change_password reopened).1
        ≡ some (change_password (codes "bob") (codes "correct horse")))
    × (let late = password_changed none (edit (set_new_user_password (codes "x")) reopened) in
        (late.password_target ≡ none) × (late.new_user_password ≡ []))
unfolding trim
carried_password_test =
    carried_password (user (codes "alice")) (user (codes "bob")) (codes "correct horse") (codes "x")
      initial_page refl (omega arith) refl
