-- ===== src/Severity/Tests.antt =====
-- A confidence of nine tenths, and a quota that is used up.
use prefixd.Base.{ℕ, ◌≤◌, ◌≢◌, suc, false, some, ◌≡◌, ◌↔◌, refl, arith}
use prefixd.Base.Numbers.{finite, nan, IsBetween}
use prefixd.Table.Events.{Fraction}
use prefixd.Severity.Gauges.{
  confidence_bar, confidence_bar_lem, judged, high, percentage, percentage_lem,
}

abbrev nine_tenths : Fraction
nine_tenths = record { numerator = 9; denominator_less_one = 9 }

confidence_bar_lem_test :
    ((confidence_bar (some nine_tenths)).0 ≡ false)
    × ((confidence_bar (some nine_tenths)).1.numerator
        ≤ suc (confidence_bar (some nine_tenths)).1.denominator_less_one)
confidence_bar_lem_test = confidence_bar_lem nine_tenths (omega arith)

called_high : judged (some nine_tenths) ≡ high
unfolding judged
called_high = refl

abbrev current : ℕ
current = 700

abbrev limit : ℕ
limit = 500

percentage_lem_test :
    ((percentage current limit ≡ nan) ↔ ((current ≡ 0) × (limit ≡ 0)))
    × (limit ≢ 0 → IsBetween 0 100 (percentage current limit))
percentage_lem_test = percentage_lem current limit

used_up : percentage 700 500 ≡ finite false 100 0
unfolding percentage
used_up = refl
