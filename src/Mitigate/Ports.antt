-- ===== src/Mitigate/Ports.antt =====
-- The ports that frontend/components/dashboard/mitigate-now-dialog.tsx takes.
use prefixd.Base.{
  subst, ℕ, ◌≤◌, true, false, Option, none, some, List, [], ◌∷◌, map, if◌then◌else◌, ltb, any,
  length, length-map, All, arith, ◌≡◌, refl, ap, ◌∙◌, Bool-cases, inl, inr,
}
use prefixd.Base.Text.{Text, truthy}
use prefixd.Base.Trim.{trim}
use prefixd.Base.Split.{split, join, IsFree, split-join}
use prefixd.Base.Digits.{truthy-trim-IsDigits, to_decimal-IsDigits, IsFree-IsDigits, trim-IsDigits}
use prefixd.Base.Decimal.{to_decimal, truthy-to_decimal}
use prefixd.Base.Numbers.{Number, nan, infinity, finite, IsBetween}
use prefixd.Mitigate.{is_bad_port, parse_ports}

is_bad_port_lem : (x : Number) → is_bad_port x ≡ false → IsBetween 1 65535 x
is_bad_port_lem nan e = ground arith
is_bad_port_lem (infinity true) e = ground arith
is_bad_port_lem (infinity false) e = ground arith
is_bad_port_lem (finite true n d) e = ground arith
is_bad_port_lem (finite false n d) e = ground arith

ports-IsBetween : (l : List Number) → any is_bad_port l ≡ false → All (IsBetween 1 65535) l
ports-IsBetween [] e = tt
ports-IsBetween (x ∷ l) e = (is_bad_port_lem x (ground arith), ports-IsBetween l (ground arith))

-- The tests of the numbers that were read.
abbrev checked : List Number → Option (List Number)
checked l = if any is_bad_port l then none else if ltb 8 (length l) then none else some l

checked_lem :
    (parsed l : List Number)
    → checked parsed ≡ some l
    → (parsed ≡ l) × (length parsed ≤ 8) × (any is_bad_port parsed ≡ false)
checked_lem parsed l e = ground arith

-- The ports that are read are eight at most, each a finite number from 1 to 65535.
pub parse_ports-IsBetween :
    (number_of : Text → Number) (input : Text) (l : List Number)
    → parse_ports number_of input ≡ some l
    → (length l ≤ 8) × All (IsBetween 1 65535) l
unfolding parse_ports
parse_ports-IsBetween number_of input l e = elim (Bool-cases (truthy (trim input))) [
  | inl given ↦
      let (here, short, fine) =
        checked_lem (map number_of (map trim (split b',' input))) l (ground (arith, e, given)) in
      subst (λ l'. (length l' ≤ 8) × All (IsBetween 1 65535) l') here
        (short, ports-IsBetween _ fine)
  | inr blank ↦
      subst (λ l'. (length l' ≤ 8) × All (IsBetween 1 65535) l') (blank_lem blank) (omega arith, tt)
]
  where
    blank_lem : truthy (trim input) ≡ false → [] ≡ l
    blank_lem blank = ground (arith, e, blank)

abbrev pub natural : ℕ → Number
natural n = finite false n 0

map-IsFree : (ports : List ℕ) → All (λ t. IsFree b',' t) (map to_decimal ports)
map-IsFree [] = tt
map-IsFree (n ∷ l) =
    (IsFree-IsDigits b',' (to_decimal n) refl (to_decimal-IsDigits n), map-IsFree l)

trims : (ports : List ℕ) → map trim (map to_decimal ports) ≡ map to_decimal ports
trims [] = refl
trims (n ∷ l) = rw (trim-IsDigits (to_decimal n) (to_decimal-IsDigits n), trims l) refl

numbers :
    (number_of : Text → Number)
    → ((n : ℕ) → number_of (to_decimal n) ≡ natural n)
    → (ports : List ℕ) → map number_of (map to_decimal ports) ≡ map natural ports
numbers number_of reads [] = refl
numbers number_of reads (n ∷ l) = rw (reads n, numbers number_of reads l) refl

not_bad :
    (ports : List ℕ)
    → All (λ n. (1 ≤ n) × (n ≤ 65535)) ports
    → any is_bad_port (map natural ports) ≡ false
not_bad [] h = refl
not_bad (n ∷ l) h = ground (arith, h.0, not_bad l h.1)

not-blank : (n : ℕ) (l : List ℕ) → truthy (trim (join b',' (map to_decimal (n ∷ l)))) ≡ true
unfolding join
not-blank n [] =
    ap (λ t. truthy t) (trim-IsDigits (to_decimal n) (to_decimal-IsDigits n)) ∙ truthy-to_decimal n
not-blank n (m ∷ l) =
    truthy-trim-IsDigits (to_decimal n) (b',' ∷ join b',' (map to_decimal (m ∷ l)))
      (truthy-to_decimal n) (to_decimal-IsDigits n)

nothing : (number_of : Text → Number) → parse_ports number_of (join b',' []) ≡ some []
unfolding parse_ports join trim
nothing number_of = refl

-- Up to eight ports from 1 to 65535 in decimal notation, with commas between them, are read as those
-- ports, if the browser reads the decimal notation of a number as that number.
pub parse_ports-join :
    (number_of : Text → Number)
    → ((n : ℕ) → number_of (to_decimal n) ≡ natural n)
    → (ports : List ℕ) → All (λ n. (1 ≤ n) × (n ≤ 65535)) ports
    → length ports ≤ 8
    → parse_ports number_of (join b',' (map to_decimal ports)) ≡ some (map natural ports)
unfolding parse_ports
parse_ports-join number_of reads [] h short = nothing number_of
parse_ports-join number_of reads (n ∷ l) h short =
    rw (not-blank n l, read, not_bad (n ∷ l) h) (ground (arith, length-map natural (n ∷ l), short))
  where
    read :
        map number_of (map trim (split b',' (join b',' (map to_decimal (n ∷ l)))))
        ≡ map natural (n ∷ l)
    read =
        ap (λ parts. map number_of (map trim parts))
          (split-join b',' (to_decimal n) (map to_decimal l) (map-IsFree (n ∷ l)))
        ∙ ap (map number_of) (trims (n ∷ l))
        ∙ numbers number_of reads (n ∷ l)
