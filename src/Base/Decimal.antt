-- ===== src/Base/Decimal.antt =====
-- `n.toString()` on a natural number, and reading the digits back.
use Prim.Native.Nat.{ℕ, zero, suc, ◌+◌, ◌*◌, ◌-◌, ◌/◌, ◌%◌, ◌<◌}
use mathlib.Core.Path.{◌≡◌, refl, sym, ap, ◌∙◌}
use mathlib.Core.Logic.{inl, inr}
use mathlib.Core.List.{[], ◌∷◌}
use mathlib.Core.Bool.{true}
use native.Mathlib.Omega.{arith}
use prefixd.Base.Tests.{ltb, if◌then◌else◌, Bool-cases}
use prefixd.Base.Text.{Text, truthy}

-- The digits of `n` in front of `acc`; the fuel bounds their number.
unfoldable pub digits : ℕ → ℕ → Text → Text
digits zero n acc = acc
digits (suc f) n acc =
    let more = digits f (n / 10) ((b'0' + n % 10) ∷ acc) in
    if ltb n 10 then (b'0' + n) ∷ acc else more

unfoldable pub to_decimal : ℕ → Text
unfolding digits
to_decimal n = digits (suc n) n []

-- The number that the digits stand for, `a` being what was read before them.
unfoldable pub value_from : ℕ → Text → ℕ
value_from a [] = a
value_from a (c ∷ s) = value_from (a * 10 + (c - b'0')) s

value_from-digits :
    (f n : ℕ) (acc : Text) → n < f → value_from 0 (digits f n acc) ≡ value_from n acc
unfolding value_from digits
value_from-digits zero n acc h = elim h [ ]
value_from-digits (suc f) n acc h = elim (Bool-cases (ltb n 10)) [
  | inl small ↦ rw small (ap (λ k. value_from k acc) (omega arith))
  | inr large ↦ rw large (
      value_from-digits f (n / 10) ((b'0' + n % 10) ∷ acc) (ground arith)
      ∙ ap (λ k. value_from k acc) (omega arith))
]

pub value_from-to_decimal : (n : ℕ) → value_from 0 (to_decimal n) ≡ n
unfolding to_decimal value_from
value_from-to_decimal n = value_from-digits (suc n) n [] (omega arith)

pub to_decimal_injective : (m n : ℕ) → to_decimal m ≡ to_decimal n → m ≡ n
to_decimal_injective m n e =
    sym (value_from-to_decimal m) ∙ ap (value_from 0) e ∙ value_from-to_decimal n

truthy-digits : (f n c : ℕ) (acc : Text) → truthy (digits f n (c ∷ acc)) ≡ true
unfolding digits
truthy-digits zero n c acc = refl
truthy-digits (suc f) n c acc = ground (arith, truthy-digits f (n / 10) (b'0' + n % 10) (c ∷ acc))

pub truthy-to_decimal : (n : ℕ) → truthy (to_decimal n) ≡ true
unfolding to_decimal digits
truthy-to_decimal n = ground (arith, truthy-digits n (n / 10) (b'0' + n % 10) [])

to_decimal_test : to_decimal 1203 ≡ 49 ∷ 50 ∷ 48 ∷ 51 ∷ []
unfolding to_decimal
to_decimal_test = refl
