-- ===== src/Base/Http.antt =====
-- What `fetch` gives back: a rejected promise, or a response whose body can be read as text and as
-- JSON. Reading the JSON may throw as well.
use prefixd.Base.Tests.{leb}
use prefixd.Base.Text.{Text}
use Prim.Native.Nat.{ℕ}
use mathlib.Core.Bool.{Bool, ◌&&◌}
use mathlib.Core.Path.{◌≡◌, refl}
use mathlib.Core.Logic.{◌⊎◌, inl, inr}

pub data Result (A : Type 0) : Type 0 where
  ok : A → Result A
  err : Text → Result A

infixl 5 ◌>>=◌
abbrev pub ◌>>=◌ : {A B : Type 0} → Result A → (A → Result B) → Result B
ok a >>= f = f a
err e >>= f = err e

pub record Response (A : Type 0) : Type 0 where
  pub status : ℕ
  pub text : Text
  pub json : Result A

pub data Fetched (A : Type 0) : Type 0 where
  rejected : Text → Fetched A
  responded : Response A → Fetched A

-- `res.ok`.
abbrev pub is_ok : ℕ → Bool
is_ok status = leb 200 status && leb status 299

pub Result-cases : {A : Type 0} (r : Result A) → ((a : A) × (r ≡ ok a)) ⊎ ((e : Text) × (r ≡ err e))
Result-cases (ok a) = inl (a, refl)
Result-cases (err e) = inr (e, refl)
