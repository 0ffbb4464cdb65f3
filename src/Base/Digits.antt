-- ===== src/Base/Digits.antt =====
-- The digits of decimal notation: trimming keeps a text of digits, and it has no separators.
use prefixd.Base.Tests.{ltb, leb, ◌==◌, Bool-cases, ==_iff}
use prefixd.Base.Preds.{All, All-append}
use prefixd.Base.Text.{Text, truthy}
use prefixd.Base.Trim.{is_space, skip_spaces, trim, truthy-trim}
use prefixd.Base.Split.{IsFree}
use prefixd.Base.Decimal.{digits, to_decimal}
use Prim.Native.Nat.{ℕ, zero, suc, ◌+◌, ◌/◌, ◌%◌}
use mathlib.Core.Bool.{Bool, true, false, ◌&&◌}
use mathlib.Core.Path.{subst, ◌≡◌, refl, sym, ap, ◌∙◌}
use mathlib.Core.Logic.{inl, inr}
use mathlib.Core.List.{[], ◌∷◌, ◌++◌, reverse, reverse-cons, reverse-reverse}
use native.Mathlib.Omega.{arith}

-- `\d`.
abbrev pub is_digit : ℕ → Bool
is_digit c = leb b'0' c && leb c b'9'

abbrev pub IsDigits : Text → Type 0
IsDigits s = All (λ c. is_digit c ≡ true) s

digits-IsDigits : (f n : ℕ) (acc : Text) → IsDigits acc → IsDigits (digits f n acc)
unfolding digits
digits-IsDigits zero n acc h = h
digits-IsDigits (suc f) n acc h = elim (Bool-cases (ltb n 10)) [
  | inl small ↦ rw small (ground arith, h)
  | inr large ↦ rw large (digits-IsDigits f (n / 10) ((b'0' + n % 10) ∷ acc) (ground arith, h))
]

pub to_decimal-IsDigits : (n : ℕ) → IsDigits (to_decimal n)
unfolding to_decimal
to_decimal-IsDigits n = digits-IsDigits (suc n) n [] tt

is_space-is_digit : (c : ℕ) → is_digit c ≡ true → is_space c ≡ false
is_space-is_digit c h = ground arith

skip_spaces_digits : (s : Text) → IsDigits s → skip_spaces s ≡ s
unfolding skip_spaces
skip_spaces_digits [] h = refl
skip_spaces_digits (c ∷ s) h = rw (is_space-is_digit c h.0) refl

reverse-IsDigits : (s : Text) → IsDigits s → IsDigits (reverse s)
reverse-IsDigits [] h = tt
reverse-IsDigits (c ∷ s) h =
    subst (λ t. IsDigits t) (sym (reverse-cons c s))
      (All-append (λ d. is_digit d ≡ true) (reverse s) (c ∷ []) (reverse-IsDigits s h.1) (h.0, tt))

pub trim-IsDigits : (s : Text) → IsDigits s → trim s ≡ s
unfolding trim
trim-IsDigits s h =
    rw (skip_spaces_digits s h, skip_spaces_digits (reverse s) (reverse-IsDigits s h))
      (reverse-reverse s)

pub IsFree-IsDigits : (sep : ℕ) (s : Text) → is_digit sep ≡ false → IsDigits s → IsFree sep s
IsFree-IsDigits sep [] other h = tt
IsFree-IsDigits sep (c ∷ s) other h = (
  elim (Bool-cases (c == sep)) [
    | inl e ↦ differ (sym h.0 ∙ ap is_digit ((==_iff c sep).0 e) ∙ other)
    | inr e ↦ e
  ],
  IsFree-IsDigits sep s other h.1,
)
  where
    differ : true ≡ false → (c == sep) ≡ false
    differ e = absurd (ground arith)

-- A text that begins with digits is not blank.
pub truthy-trim-IsDigits :
    (s t : Text) → truthy s ≡ true → IsDigits s → truthy (trim (s ++ t)) ≡ true
truthy-trim-IsDigits [] t e h = absurd (ground arith)
truthy-trim-IsDigits (c ∷ s) t e h = truthy-trim c (s ++ t) (is_space-is_digit c h.0)
