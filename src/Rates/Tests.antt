-- ===== src/Rates/Tests.antt =====
-- Rates with a rounding that cuts off.
use prefixd.Base.{ℕ, ◌/◌, none, some, ◌≡◌, refl}
use prefixd.Base.Text.{Text, codes}
use prefixd.Base.Decimal.{to_decimal}
use prefixd.Rates.{format_bps, format_pps, format_rate, format_ttl, action_text}

abbrev cut : ℕ → ℕ → ℕ → Text
unfolding to_decimal
cut digits n d = to_decimal (n / d)

five_megabits :
    (format_bps cut (some 5000000) ≡ codes "5 Mbps")
    × (format_rate cut 5000000 ≡ codes "5 Mbps")
    × (action_text cut (codes "police") (some 5000000) ≡ codes "police 5 Mbps")
unfolding format_bps format_rate action_text cut
five_megabits = (refl, refl, refl)

missing : (format_bps cut (some 0) ≡ codes "N/A") × (format_pps cut none ≡ codes "N/A")
unfolding format_bps format_pps
missing = (refl, refl)

two_minutes : format_ttl cut 120 ≡ codes "2m"
unfolding format_ttl cut
two_minutes = refl
