-- ===== src/Session.antt =====
-- The operator's session: the requests of frontend/lib/auth.ts, and the state of the provider in
-- frontend/hooks/use-auth.tsx.
-- An asynchronous call of the provider is the event of its completion, with what `fetch` gave back;
-- completions come in any order, so a run is any list of events.
pub mod Laws
mod Tests
use prefixd.Base.{
  ℕ, Bool, true, false, Option, none, some, List, [], ◌∷◌, ◌++◌, if◌then◌else◌, ◌==◌, is_some,
}
use prefixd.Base.Text.{Text, codes}
use prefixd.Base.Http.{Result, ok, err, Response, Fetched, rejected, responded, is_ok}

pub data OperatorRole : Type 0 where
  admin operator viewer : OperatorRole

pub record Operator : Type 0 where
  pub id : Text
  pub username : Text
  pub role : OperatorRole

login_response : Response Operator → Result Operator
login_response res =
    if is_ok res.status
    then res.json
    else if res.status == 401
    then err (codes "Invalid username or password")
    else err (codes "Login failed: " ++ res.text)

-- `login`: the operator, or the error that is thrown.
unfoldable pub login : Fetched Operator → Result Operator
unfolding login_response
login (rejected e) = err e
login (responded res) = login_response res

-- `logout`: the response is not looked at.
unfoldable pub logout : Fetched (Unit {0}) → Result (Unit {0})
logout (rejected e) = err e
logout (responded res) = ok tt

abbrev to_option : {A : Type 0} → Result A → Option A
to_option (ok a) = some a
to_option (err e) = none

-- `getCurrentUser`: whatever is thrown is caught, and gives `null`.
unfoldable pub get_current_user : Fetched Operator → Option Operator
get_current_user (rejected e) = none
get_current_user (responded res) = if is_ok res.status then to_option res.json else none

-- The state of `AuthProvider`, and the value of its context.
pub record Auth : Type 0 where
  pub operator : Option Operator
  pub is_loading : Bool

abbrev pub initial : Auth
initial = record { operator = none; is_loading = true }

abbrev pub is_authenticated : Auth → Bool
is_authenticated a = is_some a.operator

pub data Event : Type 0 where
  mounted : Fetched Operator → Event  -- the effect's `refresh().finally(…)`
  refreshed : Fetched Operator → Event
  logged_in : Fetched Operator → Event
  logged_out : Fetched (Unit {0}) → Event
  auth_expired : Event

after_login : Auth → Result Operator → Auth × Option Text
after_login a (ok user) = (record a { operator = some user }, none)
after_login a (err e) = (a, some e)

after_logout : Auth → Result (Unit {0}) → Auth × Option Text
after_logout a (ok done) = (record a { operator = none }, none)
after_logout a (err e) = (a, some e)

-- The new state, and the error that the call throws to the page.
unfoldable pub step : Auth → Event → Auth × Option Text
unfolding login logout get_current_user after_login after_logout
step a (mounted r) = (record { operator = get_current_user r; is_loading = false }, none)
step a (refreshed r) = (record a { operator = get_current_user r }, none)
step a (logged_in r) = after_login a (login r)
step a (logged_out r) = after_logout a (logout r)
step a auth_expired = (record a { operator = none }, none)

unfoldable pub run : Auth → List Event → Auth
run a [] = a
run a (e ∷ es) = run (step a e).0 es
