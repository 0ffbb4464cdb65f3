-- ===== src/Base/Numbers.antt =====
-- The numbers of JavaScript as far as frontend/components/dashboard/playbook-editor.tsx looks at them:
-- every finite one is a fraction, with a sign of its own for minus zero.
use prefixd.Base.{ℕ, suc, ◌+◌, ◌*◌, ◌≤◌, ◌<◌, Bool, true, false, not, ◌==◌, ltb, leb, ◌≡◌}

pub data Number : Type 0 where
  nan : Number
  -- Whether it is the negative one.
  infinity : Bool → Number
  -- Whether it is negative, the numerator, and the denominator less one.
  finite : Bool → ℕ → ℕ → Number

abbrev pub is_finite : Number → Bool
is_finite nan = false
is_finite (infinity negative) = false
is_finite (finite negative n d) = true

-- `x < k`.
abbrev pub less_than : Number → ℕ → Bool
less_than nan k = false
less_than (infinity negative) k = negative
less_than (finite true n d) k = ltb 0 (n + k)
less_than (finite false n d) k = ltb n (k * suc d)

-- `x > k`.
abbrev pub greater_than : Number → ℕ → Bool
greater_than nan k = false
greater_than (infinity negative) k = not negative
greater_than (finite true n d) k = false
greater_than (finite false n d) k = ltb (k * suc d) n

-- `x <= k`.
abbrev pub at_most : Number → ℕ → Bool
at_most nan k = false
at_most (infinity negative) k = negative
at_most (finite true n d) k = true
at_most (finite false n d) k = leb n (k * suc d)

-- `!x`.
abbrev pub is_falsy : Number → Bool
is_falsy nan = true
is_falsy (infinity negative) = false
is_falsy (finite negative n d) = n == 0

-- A finite number from 0 on.
abbrev pub IsNonNegative : Number → Type 0
IsNonNegative nan = ⊥
IsNonNegative (infinity negative) = ⊥
IsNonNegative (finite true n d) = n ≡ 0
IsNonNegative (finite false n d) = Unit

-- A finite number above 0.
abbrev pub IsPositive : Number → Type 0
IsPositive nan = ⊥
IsPositive (infinity negative) = ⊥
IsPositive (finite true n d) = ⊥
IsPositive (finite false n d) = 0 < n

-- A finite number from low to high, where low is not 0 for a negative one.
abbrev pub IsBetween : ℕ → ℕ → Number → Type 0
IsBetween low high nan = ⊥
IsBetween low high (infinity negative) = ⊥
IsBetween low high (finite true n d) = (n ≡ 0) × (low ≡ 0)
IsBetween low high (finite false n d) = (low * suc d ≤ n) × (n ≤ high * suc d)

abbrev pub is_nan : Number → Bool
is_nan nan = true
is_nan (infinity negative) = false
is_nan (finite negative n d) = false

-- `x >= k`.
abbrev pub at_least : Number → ℕ → Bool
at_least nan k = false
at_least (infinity negative) k = not negative
at_least (finite true n d) k = (n + k) == 0
at_least (finite false n d) k = leb (k * suc d) n
