-- ===== src/Session/Laws.antt =====
-- Who is signed in after any sequence of completed calls (frontend/hooks/use-auth.tsx).
use prefixd.Base.{
  true, false, some, List, [], ◌∷◌, All, arith, ◌≡◌, ◌≢◌, ◌⊎◌, inl, inr, refl, ◌↔◌, ◌∙◌,
}
use prefixd.Base.Text.{Text}
use prefixd.Base.Http.{Result, ok, err, Fetched, rejected, responded, is_ok}
use prefixd.Session.{
  Operator, Auth, Event, mounted, refreshed, logged_in, logged_out, auth_expired, login, logout,
  get_current_user, step, run, initial, after_login, after_logout,
}

-- The response is a success whose body is the operator.
abbrev pub Grants : Operator → Fetched Operator → Type 0
Grants u (rejected e) = ⊥
Grants u (responded res) = (is_ok res.status ≡ true) × (res.json ≡ ok u)

-- The event is a completed login or refresh that the server answered with this operator.
abbrev pub GrantsEvent : Operator → Event → Type 0
GrantsEvent u (mounted r) = Grants u r
GrantsEvent u (refreshed r) = Grants u r
GrantsEvent u (logged_in r) = Grants u r
GrantsEvent u (logged_out r) = ⊥
GrantsEvent u auth_expired = ⊥

-- Some event of the list grants the operator, and none after it expires the session.
pub data Granted (u : Operator) : List Event → Type 0 where
  last :
      {e : Event} {es : List Event}
      → GrantsEvent u e
      → All (λ f. f ≢ auth_expired) es
      → Granted u (e ∷ es)
  before : {e : Event} {es : List Event} → Granted u es → Granted u (e ∷ es)

login-Grants : (r : Fetched Operator) (u : Operator) → login r ≡ ok u → Grants u r
unfolding login
login-Grants (rejected e) u h = cc
login-Grants (responded res) u h = ground arith

current_user-Grants :
    (r : Fetched Operator) (u : Operator) → get_current_user r ≡ some u → Grants u r
unfolding get_current_user
current_user-Grants (rejected e) u h = cc
current_user-Grants (responded res) u h = ground arith

login_step :
    (a : Auth) (l : Result Operator) (u : Operator)
    → (after_login a l).0.operator ≡ some u
    → (l ≡ ok u) ⊎ (a.operator ≡ some u)
unfolding after_login
login_step a (ok v) u h = inl (ground arith)
login_step a (err e) u h = inr h

logout_step :
    (a : Auth) (l : Result (Unit {0})) (u : Operator)
    → (after_logout a l).0.operator ≡ some u
    → a.operator ≡ some u
unfolding after_logout
logout_step a (ok done) u h = cc
logout_step a (err e) u h = h

-- One event: who is signed in afterwards was granted by it, or was signed in before and the event
-- did not expire the session.
pub step-operator :
    (a : Auth) (e : Event) (u : Operator)
    → (step a e).0.operator ≡ some u
    → GrantsEvent u e ⊎ ((a.operator ≡ some u) × (e ≢ auth_expired))
unfolding step
step-operator a (mounted r) u h = inl (current_user-Grants r u h)
step-operator a (refreshed r) u h = inl (current_user-Grants r u h)
step-operator a (logged_in r) u h = elim (login_step a (login r) u h) [
  | inl granted ↦ inl (login-Grants r u granted)
  | inr kept ↦ inr (kept, λ e. cc)
]
step-operator a (logged_out r) u h = inr (logout_step a (logout r) u h, λ e. cc)
step-operator a auth_expired u h = cc

-- The refresh of the mounted provider is among the completed calls.
pub data HasMounted : List Event → Type 0 where
  now : (r : Fetched Operator) (es : List Event) → HasMounted (mounted r ∷ es)
  later : (e : Event) {es : List Event} → HasMounted es → HasMounted (e ∷ es)

step-is_loading :
    (a : Auth) (e : Event)
    → ((r : Fetched Operator) × (e ≡ mounted r)) ⊎ ((step a e).0.is_loading ≡ a.is_loading)
unfolding step after_login after_logout
step-is_loading a (mounted r) = inl (r, refl)
step-is_loading a (refreshed r) = inr refl
step-is_loading a (logged_in r) = inr (ground arith)
step-is_loading a (logged_out r) = inr (ground arith)
step-is_loading a auth_expired = inr refl

loaded_stays : (a : Auth) (es : List Event) → a.is_loading ≡ false → (run a es).is_loading ≡ false
unfolding run
loaded_stays a [] h = h
loaded_stays a (e ∷ es) h = loaded_stays (step a e).0 es (elim (step-is_loading a e) [
  | inl (r, same) ↦ rw same (unfold step in refl)
  | inr kept ↦ kept ∙ h
])

loaded_from : (a : Auth) (es : List Event) → HasMounted es → (run a es).is_loading ≡ false
unfolding run step
loaded_from a es (now r rest) = loaded_stays _ rest refl
loaded_from a es (later e {es = rest} h) = loaded_from (step a e).0 rest h

loading_until :
    (a : Auth) (es : List Event)
    → a.is_loading ≡ true
    → (run a es).is_loading ≡ false
    → HasMounted es
unfolding run
loading_until a [] h k = cc
loading_until a (e ∷ es) h k = elim (step-is_loading a e) [
  | inl (r, same) ↦ rw same (now r es)
  | inr kept ↦ later e (loading_until (step a e).0 es (kept ∙ h) k)
]

-- `isLoading` is false exactly when the first refresh of the mounted provider has completed,
-- whatever it gave back.
pub is_loading_iff : (es : List Event) → ((run initial es).is_loading ≡ false) ↔ HasMounted es
is_loading_iff es = (loading_until initial es refl, loaded_from initial es)
