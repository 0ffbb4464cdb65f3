-- ===== src/Playbook/Checks.antt =====
-- The single checks of frontend/components/dashboard/playbook-editor.tsx against what they demand.
use prefixd.Base.{
  ◌≤◌, Bool, true, false, Option, none, some, List, [], ◌∷◌, ◌++◌, In, length, arith, ◌≡◌, ◌↔◌,
  refl, inl, inr, Bool-cases,
}
use prefixd.Base.Trim.{is_space}
use prefixd.Base.Text.{Text, same_iff}
use prefixd.Playbook.{
  includes, is_blank, when, name_errors, ttl_is_wrong, rate_is_wrong, confidence_is_wrong,
  persistence_is_wrong,
}
use prefixd.Base.Numbers.{Number, nan, infinity, finite, IsBetween, IsPositive, IsNonNegative}
use prefixd.Playbook.Valid.{IsOptional, IsGiven, IsNamed}

pub append_empty : {A : Type 0} (xs ys : List A) → ((xs ++ ys) ≡ []) ↔ ((xs ≡ []) × (ys ≡ []))
append_empty [] ys = ground arith
append_empty (x ∷ xs) ys = ground arith

pub when_empty : (c : Bool) (message : Text) → (when c message ≡ []) ↔ (c ≡ false)
when_empty true message = ground arith
when_empty false message = ground arith

pub includes_iff : (l : List Text) (x : Text) → (includes l x ≡ true) ↔ In x l
unfolding includes
includes_iff [] x = ground arith
includes_iff (y ∷ l) x = ground (arith, same_iff y x, includes_iff l x)

pub not-includes_iff : (l : List Text) (x : Text) → (includes l x ≡ false) ↔ (In x l → ⊥)
not-includes_iff l x = ground (arith, includes_iff l x)

pub ttl_iff : (x : Number) → (ttl_is_wrong x ≡ false) ↔ IsBetween 1 86400 x
unfolding ttl_is_wrong
ttl_iff nan = ground arith
ttl_iff (infinity b) = ground arith
ttl_iff (finite true n d) = ground arith
ttl_iff (finite false n d) = ground arith

pub rate_iff : (o : Option Number) → (rate_is_wrong o ≡ false) ↔ IsGiven IsPositive o
unfolding rate_is_wrong
rate_iff none = ground arith
rate_iff (some nan) = ground arith
rate_iff (some (infinity b)) = ground arith
rate_iff (some (finite true n d)) = ground arith
rate_iff (some (finite false n d)) = ground arith

pub confidence_iff :
    (o : Option Number) → (confidence_is_wrong o ≡ false) ↔ IsOptional (IsBetween 0 1) o
unfolding confidence_is_wrong
confidence_iff none = ground arith
confidence_iff (some nan) = ground arith
confidence_iff (some (infinity b)) = ground arith
confidence_iff (some (finite true n d)) = ground arith
confidence_iff (some (finite false n d)) = ground arith

pub persistence_iff :
    (o : Option Number) → (persistence_is_wrong o ≡ false) ↔ IsOptional IsNonNegative o
unfolding persistence_is_wrong
persistence_iff none = ground arith
persistence_iff (some nan) = ground arith
persistence_iff (some (infinity b)) = ground arith
persistence_iff (some (finite true n d)) = ground arith
persistence_iff (some (finite false n d)) = ground arith

pub blank_iff : (name : Text) → (is_blank name ≡ false) ↔ IsNamed name
unfolding is_blank
blank_iff [] = (λ e. absurd (ground arith), λ (c, m, e). absurd m)
blank_iff (c ∷ s) = (
  λ e. elim (Bool-cases (is_space c)) [
    | inl blank ↦ let (d, m, solid) = (blank_iff s).0 (ground arith) in (d, inr m, solid)
    | inr solid ↦ (c, inl refl, solid)
  ],
  λ (d, m, solid). elim m [
    | inl here ↦ ground arith
    | inr there ↦ ground (arith, (blank_iff s).1 (d, there, solid))
  ],
)

pub name_iff :
    (ctx : Text) (names : List Text) (name : Text)
    → (name_errors ctx names name ≡ []) ↔ (IsNamed name × (length name ≤ 128) × (In name names → ⊥))
unfolding name_errors
name_iff ctx names name = (
  λ e. elim (Bool-cases (is_blank name)) [
    | inl blank ↦ absurd (ground arith)
    | inr solid ↦
        ((blank_iff name).0 solid, ground arith, λ m. ground (arith, includes_iff names name))
  ],
  λ (named, short, fresh).
      ground (arith, (blank_iff name).1 named, (not-includes_iff names name).1 fresh),
)
