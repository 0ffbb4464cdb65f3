-- ===== src/Severity/Gauges.antt =====
-- The bars of the dashboard: frontend/components/dashboard/confidence-bar.tsx with what
-- frontend/components/dashboard/event-detail-panel.tsx says of a confidence, and
-- frontend/components/dashboard/quota-gauge.tsx.
use prefixd.Base.{
  ℕ, zero, suc, ◌*◌, ◌≤◌, Bool, false, Option, none, some, if◌then◌else◌, leb, or_else, arith, ◌≡◌,
  ◌≢◌, ◌↔◌, refl, Bool-cases, inl, inr,
}
use prefixd.Base.Numbers.{Number, nan, infinity, finite, IsBetween}
use prefixd.Table.Events.{Fraction}

abbrev pub no_confidence : Fraction
no_confidence = record { numerator = 0; denominator_less_one = 0 }

-- `value >= 80` in `ConfidenceBar`, and its width in percent, the value itself.
unfoldable pub is_high : Fraction → Bool
is_high value = leb (80 * suc value.denominator_less_one) value.numerator

-- `ConfidenceBar value={event.confidence || 0}`: whether it is high, and its width in percent.
unfoldable pub confidence_bar : Option Fraction → Bool × Fraction
unfolding is_high
confidence_bar confidence = let value = or_else confidence no_confidence in (is_high value, value)

pub data Judged : Type 0 where
  high medium low : Judged

-- The line below the bar in the panel; a confidence of 0 is falsy.
unfoldable pub judged : Option Fraction → Judged
judged none = low
judged (some c) =
    if leb (4 * suc c.denominator_less_one) (5 * c.numerator)
    then high
    else if leb (suc c.denominator_less_one) (2 * c.numerator)
    then medium
    else low

-- No confidence of an event, which is from 0 to 1, makes the bar high, and the bar is never wider than
-- one percent.
pub confidence_bar_lem :
    (c : Fraction)
    → c.numerator ≤ suc c.denominator_less_one
    → ((confidence_bar (some c)).0 ≡ false)
      × ((confidence_bar (some c)).1.numerator
          ≤ suc (confidence_bar (some c)).1.denominator_less_one)
unfolding confidence_bar
confidence_bar_lem c within = (ground arith, within)

-- `current / max`.
abbrev pub quotient : ℕ → ℕ → Number
quotient zero zero = nan
quotient (suc n) zero = infinity false
quotient n (suc d) = finite false n d

-- `Math.min(x * 100, 100)` of a number that is not negative.
abbrev pub percent : Number → Number
percent nan = nan
percent (infinity negative) = finite false 100 0
percent (finite negative n d) =
    if leb (100 * suc d) (n * 100) then finite false 100 0 else finite negative (n * 100) d

unfoldable pub percentage : (current limit : ℕ) → Number
percentage current limit = percent (quotient current limit)

percent-finite :
    (n d : ℕ) → (percent (finite false n d) ≢ nan) × IsBetween 0 100 (percent (finite false n d))
percent-finite n d = elim (Bool-cases (leb (100 * suc d) (n * 100))) [
  | inl e ↦ rw e ((λ h. ground arith), (ground arith, ground arith))
  | inr e ↦ rw e ((λ h. ground arith), (ground arith, ground arith))
]

-- The percentage is from 0 to 100 where there is a limit; and it is not a number exactly where both
-- numbers are 0.
pub percentage_lem :
    (current limit : ℕ)
    → ((percentage current limit ≡ nan) ↔ ((current ≡ 0) × (limit ≡ 0)))
      × (limit ≢ 0 → IsBetween 0 100 (percentage current limit))
unfolding percentage
percentage_lem zero zero = ((λ e. (refl, refl), λ e. refl), λ h. absurd (h refl))
percentage_lem (suc n) zero =
    ((λ e. absurd (ground arith), λ e. absurd (ground arith)), λ h. absurd (h refl))
percentage_lem zero (suc d) =
    let (a_number, between) = percent-finite 0 d in
    ((λ e. absurd (a_number e), λ e. absurd (ground arith)), λ h. between)
percentage_lem (suc n) (suc d) =
    let (a_number, between) = percent-finite (suc n) d in
    ((λ e. absurd (a_number e), λ e. absurd (ground arith)), λ h. between)
