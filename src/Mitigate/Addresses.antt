-- ===== src/Mitigate/Addresses.antt =====
-- The addresses that frontend/components/dashboard/mitigate-now-dialog.tsx takes.
use prefixd.Base.{
  subst, ◌≤◌, true, false, not, List, [], ◌∷◌, if◌then◌else◌, ◌==◌, all, length, arith, ◌≡◌, ◌↔◌,
  refl, ap, ◌∙◌,
}
use prefixd.Base.Text.{Text}
use prefixd.Base.Split.{split, join, split-join, join-split}
use prefixd.Base.Digits.{is_digit, IsDigits, IsFree-IsDigits}
use prefixd.Base.Decimal.{value_from}
use prefixd.Mitigate.{is_octet, is_valid_ipv4}

-- One to three digits whose value is at most 255.
abbrev pub IsOctet : Text → Type 0
IsOctet p = IsDigits p × (1 ≤ length p) × (length p ≤ 3) × (value_from 0 p ≤ 255)

all_iff : (s : Text) → (all is_digit s ≡ true) ↔ IsDigits s
all_iff [] = ground arith
all_iff (c ∷ s) = ground (arith, all_iff s)

is_octet_iff : (p : Text) → (is_octet p ≡ true) ↔ IsOctet p
unfolding is_octet
is_octet_iff p = ground (arith, all_iff p)

-- Four parts with dots between them.
abbrev pub dotted : (a b c d : Text) → Text
dotted a b c d = join b'.' (a ∷ b ∷ c ∷ d ∷ [])

dotted-IsValid :
    (a b c d : Text)
    → IsOctet a
    → IsOctet b
    → IsOctet c
    → IsOctet d
    → is_valid_ipv4 (dotted a b c d) ≡ true
unfolding is_valid_ipv4
dotted-IsValid a b c d ha hb hc hd =
    rw
      (
        split-join b'.' a (b ∷ c ∷ d ∷ []) (
          IsFree-IsDigits b'.' a refl ha.0,
          (
            IsFree-IsDigits b'.' b refl hb.0,
            (IsFree-IsDigits b'.' c refl hc.0, (IsFree-IsDigits b'.' d refl hd.0, tt)),
          ),
        ),
        (is_octet_iff a).1 ha,
        (is_octet_iff b).1 hb,
        (is_octet_iff c).1 hc,
        (is_octet_iff d).1 hd,
      )
      refl

-- The text is four parts of one to three digits, each at most 255, with dots between them.
abbrev pub IsAddress : Text → Type 0
IsAddress ip =
    (a : Text) × (b : Text) × (c : Text) × (d : Text) × (ip ≡ dotted a b c d)
    × (IsOctet a × IsOctet b × IsOctet c × IsOctet d)

four :
    (parts : List Text)
    → (if not (length parts == 4) then false else all is_octet parts) ≡ true
    → IsAddress (join b'.' parts)
four [] e = absurd (ground arith)
four (a ∷ []) e = absurd (ground arith)
four (a ∷ b ∷ []) e = absurd (ground arith)
four (a ∷ b ∷ c ∷ []) e = absurd (ground arith)
four (a ∷ b ∷ c ∷ d ∷ []) e = (
  a,
  b,
  c,
  d,
  refl,
  (
    (is_octet_iff a).0 (ground arith),
    (is_octet_iff b).0 (ground arith),
    (is_octet_iff c).0 (ground arith),
    (is_octet_iff d).0 (ground arith),
  ),
)
four (a ∷ b ∷ c ∷ d ∷ x ∷ l) e = absurd (ground arith)

-- The dialog takes exactly the texts of four parts with dots between them, each of one to three
-- digits and at most 255.
pub is_valid_ipv4_iff : (ip : Text) → (is_valid_ipv4 ip ≡ true) ↔ IsAddress ip
unfolding is_valid_ipv4
is_valid_ipv4_iff ip = (
  λ e. subst IsAddress (join-split b'.' ip) (four (split b'.' ip) e),
  λ (a, b, c, d, e, (ha, hb, hc, hd)).
      ap (λ t. is_valid_ipv4 t) e ∙ dotted-IsValid a b c d ha hb hc hd,
)
