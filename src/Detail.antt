-- ===== src/Detail.antt =====
-- The page of one mitigation, frontend/app/(dashboard)/mitigations/[id]/page.tsx: its state, the
-- withdrawal in two parts, up to the `await` and after it, the mark of what was copied, and the
-- customer that is shown. `find` takes the first one that fits.
pub mod Laws
pub mod Rule
mod Tests
use prefixd.Base.{
  ℕ, ◌+◌, ◌≤◌, Bool, true, false, not, ◌&&◌, ◌||◌, Option, none, some, List, [], ◌∷◌, ◌++◌,
  if◌then◌else◌, leb, keep, ◌==◌,
}
use prefixd.Base.Text.{Text, codes, same, truthy}
use prefixd.Base.Decimal.{to_decimal}
use prefixd.Session.{Auth}
use prefixd.Permissions.{Health, use_permissions}
use prefixd.Api.Types.{ConfigCustomer, ConfigService}
use prefixd.Api.Endpoints.{Request, withdraw_mitigation}

-- The fields of the mitigation that the page decides by.
pub record Mitigation : Type 0 where
  pub mitigation_id : Text
  pub status : Text
  pub customer_id : Option Text
  pub service_id : Option Text

pub record DetailPage : Type 0 where
  pub copied : Option Text
  pub show_withdraw_dialog : Bool
  pub withdraw_reason : Text
  pub is_withdrawing : Bool
  pub withdraw_error : Option Text
  -- When the timeouts of `copyToClipboard` are due.
  pub timeouts : List ℕ

abbrev pub mount : DetailPage
mount = record {
  copied = none;
  show_withdraw_dialog = false;
  withdraw_reason = [];
  is_withdrawing = false;
  withdraw_error = none;
  timeouts = [];
}

-- `copyToClipboard(text, field)`; the text goes to the browser.
unfoldable pub copy_to_clipboard : ℕ → Text → DetailPage → DetailPage
copy_to_clipboard now field s = record s {
  copied = some field;
  timeouts = s.timeouts ++ ((now + 2000) ∷ []);
}

-- The timeouts that are due fire.
unfoldable pub fire_due : ℕ → List ℕ → DetailPage → DetailPage
fire_due now [] s = record s { timeouts = [] }
fire_due now (due ∷ l) s =
    let cleared = fire_due now l (record s { copied = none }) in
    let rest = fire_due now l s in
    if leb due now then cleared else record rest { timeouts = due ∷ rest.timeouts }

abbrev pub pass : ℕ → DetailPage → DetailPage
pass now s = fire_due now s.timeouts s

unfoldable pub handle_withdraw : Option Mitigation → DetailPage → DetailPage × Option Request
handle_withdraw none s = (s, none)
handle_withdraw (some m) s = (
  record s { is_withdrawing = true; withdraw_error = none },
  some (
      withdraw_mitigation m.mitigation_id
        (if truthy s.withdraw_reason then s.withdraw_reason else codes "Manual withdrawal")
        (codes "dashboard")),
)

-- The rest of `handleWithdraw`, by the message of what was thrown; without one the mitigation is
-- asked for again.
unfoldable pub withdrawn : Option Text → DetailPage → DetailPage
withdrawn none s = record s { show_withdraw_dialog = false; is_withdrawing = false }
withdrawn (some message) s = record s { withdraw_error = some message; is_withdrawing = false }

abbrev pub can_withdraw : Mitigation → Bool
can_withdraw m = same m.status (codes "active") || same m.status (codes "escalated")

-- The button that opens the dialog is shown.
unfoldable pub withdraw_is_shown : Auth → Health → Mitigation → Bool
unfolding use_permissions
withdraw_is_shown a h m = (use_permissions a h).can_withdraw && can_withdraw m

abbrev pub find {ℓ} : {A : Type ℓ} → (A → Bool) → List A → Option A
find p [] = none
find p (x ∷ l) = if p x then some x else find p l

-- `a === b` where b may be null or undefined.
abbrev pub is_id : Text → Option Text → Bool
is_id a none = false
is_id a (some b) = same a b

-- The customers of the inventory are `none` until it has arrived.
unfoldable pub customer_of : Option (List ConfigCustomer) → Mitigation → Option ConfigCustomer
customer_of none m = none
customer_of (some customers) m = find (λ c. is_id c.customer_id m.customer_id) customers

unfoldable pub service_of : Option ConfigCustomer → Mitigation → Option ConfigService
service_of none m = none
service_of (some c) m = find (λ s. is_id s.service_id m.service_id) c.services

unfoldable pub protocol_name : Option ℕ → Text
unfolding to_decimal
protocol_name none = codes "any"
protocol_name (some proto) =
    if proto == 1
    then codes "ICMP"
    else if proto == 6
    then codes "TCP"
    else if proto == 17
    then codes "UDP"
    else to_decimal proto

pub data Shown : Type 0 where
  loading not_found : Shown
  page : Mitigation → Shown

abbrev pub shown : (is_loading : Bool) → Option Mitigation → Shown
shown true m = loading
shown false none = not_found
shown false (some m) = page m
