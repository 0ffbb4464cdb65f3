-- ===== src/Table/Withdrawal.antt =====
-- Withdrawing a mitigation: the dialog of the table of mitigations,
-- frontend/components/dashboard/mitigations-content-live.tsx. Its handler runs in two parts, up to the
-- `await` and after it, with the message of what was thrown, if anything was.
use prefixd.Base.{Bool, true, false, Option, none, some, [], if◌then◌else◌, is_some, ◌≡◌, refl}
use prefixd.Base.Text.{Text, codes, truthy}
use prefixd.Api.Endpoints.{Request, withdraw_mitigation}
use prefixd.Table.Mitigations.{Mitigation}

pub record Withdrawal : Type 0 where
  pub withdraw_target : Option Mitigation
  pub withdraw_reason : Text
  pub is_withdrawing : Bool
  pub withdraw_error : Option Text

abbrev pub idle : Withdrawal
idle = record {
  withdraw_target = none;
  withdraw_reason = [];
  is_withdrawing = false;
  withdraw_error = none;
}

unfoldable pub handle_withdraw : Withdrawal → Withdrawal × Option Request
handle_withdraw s = elim s.withdraw_target [
  | none ↦ (s, none)
  | some m ↦ (
    record s { is_withdrawing = true; withdraw_error = none },
    some (
        withdraw_mitigation m.mitigation_id
          (if truthy s.withdraw_reason then s.withdraw_reason else codes "Manual withdrawal")
          (codes "dashboard")),
  )
]

unfoldable pub withdrawn : Option Text → Withdrawal → Withdrawal
withdrawn none s = record s { withdraw_target = none; withdraw_reason = []; is_withdrawing = false }
withdrawn (some message) s = record s { withdraw_error = some message; is_withdrawing = false }

-- The dialog is shown.
abbrev pub is_shown : Withdrawal → Bool
is_shown s = is_some s.withdraw_target

unfoldable pub open_change : Bool → Withdrawal → Withdrawal
open_change true s = s
open_change false s = record s {
  withdraw_target = none;
  withdraw_reason = [];
  withdraw_error = none;
}

-- The button of a row.
abbrev pub choose : Mitigation → Withdrawal → Withdrawal
choose m s = record s { withdraw_target = some m }

abbrev pub set_withdraw_reason : Text → Withdrawal → Withdrawal
set_withdraw_reason t s = record s { withdraw_reason = t }

-- A withdrawal is sent, its dialog is closed with the escape key, and the one of another mitigation is
-- opened, with a reason typed.
abbrev pub meanwhile : Mitigation → Mitigation → Text → Withdrawal → Withdrawal
meanwhile first second reason s =
    set_withdraw_reason reason
      (choose second (open_change false (handle_withdraw (choose first s)).0))

-- When the first withdrawal then succeeds, the dialog of the second mitigation is closed and its reason
-- is lost; when it fails, its error is shown in the dialog of the second one. Either way the request
-- was for the first one, and the button of the second one is enabled again.
pub late_withdrawal :
    (first second : Mitigation) (reason message : Text) (s : Withdrawal)
    → let now = meanwhile first second reason s in
      ((handle_withdraw (choose first s)).1
        ≡ some (
            withdraw_mitigation first.mitigation_id
              (if truthy s.withdraw_reason then s.withdraw_reason else codes "Manual withdrawal")
              (codes "dashboard")))
      × (withdrawn none now ≡ idle)
      × (withdrawn (some message) now ≡ record {
        withdraw_target = some second;
        withdraw_reason = reason;
        is_withdrawing = false;
        withdraw_error = some message;
      })
unfolding handle_withdraw withdrawn open_change
late_withdrawal first second reason message s = (refl, refl, refl)
