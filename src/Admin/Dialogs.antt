-- ===== src/Admin/Dialogs.antt =====
-- The dialog that changes a password on frontend/app/(dashboard)/admin/page.tsx.
use prefixd.Base.{◌≤◌, true, false, none, some, length, arith, ◌≡◌, refl}
use prefixd.Base.Text.{Text, truthy}
use prefixd.Base.Trim.{trim}
use prefixd.Api.Types.{OperatorInfo}
use prefixd.Api.Endpoints.{change_password}
use prefixd.Admin.{
  [], AdminPage, handle_change_password, password_changed, change_is_enabled, edit,
  set_password_target, set_new_user_password,
}

-- The dialog is opened for one user, a password is typed, and the dialog is closed.
abbrev pub abandoned : OperatorInfo → Text → AdminPage → AdminPage
abandoned user password s =
    edit (set_password_target none)
      (edit (set_new_user_password password) (edit (set_password_target (some user)) s))

-- Closing the dialog keeps what was typed: when it is opened for another user, that text is in the
-- field, the button is enabled if the text has eight units and no change is under way, and pressing
-- it gives the other user the password that was typed for the first one, if the text is not blank.
-- And when a change that is under way succeeds, the dialog that was opened meanwhile is closed and
-- what was typed in it is lost.
pub carried_password :
    (first second : OperatorInfo) (password typed : Text) (s : AdminPage)
    → truthy (trim password) ≡ true
    → 8 ≤ length password
    → s.is_changing_password ≡ false
    → let reopened = edit (set_password_target (some second)) (abandoned first password s) in
      (change_is_enabled reopened ≡ true)
      × ((handle_change_password reopened).1 ≡ some (change_password second.operator_id password))
      × (let late = password_changed none (edit (set_new_user_password typed) reopened) in
          (late.password_target ≡ none) × (late.new_user_password ≡ []))
unfolding edit change_is_enabled handle_change_password password_changed
carried_password first second password typed s solid long free =
    (ground arith, ground arith, (refl, refl))
