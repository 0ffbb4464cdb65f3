-- ===== src/Base/Split.antt =====
-- `split` and `join` of JavaScript's texts, with a separator of one unit.
use prefixd.Base.Tests.{if◌then◌else◌, ◌==◌, Bool-cases}
use prefixd.Base.Preds.{All}
use prefixd.Base.Lists.{all}
use prefixd.Base.Text.{Text}
use Prim.Native.Nat.{ℕ}
use mathlib.Core.Bool.{true, false, not}
use mathlib.Core.Path.{◌≡◌, refl, ap, ◌∙◌}
use mathlib.Core.Logic.{◌≢◌, inl, inr}
use mathlib.Core.List.{List, [], ◌∷◌, ◌++◌}
use native.Mathlib.Omega.{arith}

-- `parts.join(separator)`.
unfoldable pub join : ℕ → List Text → Text
join sep [] = []
join sep (x ∷ []) = x
join sep (x ∷ y ∷ l) = x ++ sep ∷ join sep (y ∷ l)

abbrev cons_head : ℕ → List Text → List Text
cons_head c [] = (c ∷ []) ∷ []
cons_head c (x ∷ l) = (c ∷ x) ∷ l

-- `text.split(separator)`.
unfoldable pub split : ℕ → Text → List Text
split sep [] = [] ∷ []
split sep (c ∷ s) = let rest = split sep s in if c == sep then [] ∷ rest else cons_head c rest

-- The text has no separator.
abbrev pub IsFree : ℕ → Text → Type 0
IsFree sep s = All (λ c. (c == sep) ≡ false) s

-- To show it by evaluation.
pub IsFree-all : (sep : ℕ) (s : Text) → all (λ c. not (c == sep)) s ≡ true → IsFree sep s
IsFree-all sep [] e = tt
IsFree-all sep (c ∷ s) e = (ground arith, IsFree-all sep s (ground arith))

pub split_some : (sep : ℕ) (s : Text) → split sep s ≢ []
unfolding split
split_some sep [] e = ground arith
split_some sep (c ∷ s) e = ground arith

-- The part before the first separator and what follows it.
pub split-append :
    (sep : ℕ) (x s : Text) → IsFree sep x → split sep (x ++ sep ∷ s) ≡ x ∷ split sep s
unfolding split
split-append sep [] s free = ground arith
split-append sep (c ∷ x) s free = rw (free.0, split-append sep x s free.1) refl

pub split_free : (sep : ℕ) (x : Text) → IsFree sep x → split sep x ≡ x ∷ []
unfolding split
split_free sep [] free = refl
split_free sep (c ∷ x) free = rw (free.0, split_free sep x free.1) refl

-- Parts without the separator come back from the text that joins them.
pub split-join :
    (sep : ℕ) (x : Text) (l : List Text)
    → All (λ y. IsFree sep y) (x ∷ l)
    → split sep (join sep (x ∷ l)) ≡ x ∷ l
unfolding join
split-join sep x [] free = split_free sep x free.0
split-join sep x (y ∷ l) free =
    split-append sep x (join sep (y ∷ l)) free.0 ∙ ap (λ t. x ∷ t) (split-join sep y l free.1)

join_cons : (sep c : ℕ) (l : List Text) → l ≢ [] → join sep (cons_head c l) ≡ c ∷ join sep l
unfolding join
join_cons sep c [] some = absurd (some refl)
join_cons sep c (x ∷ []) some = refl
join_cons sep c (x ∷ y ∷ l) some = refl

join_empty : (sep : ℕ) (l : List Text) → l ≢ [] → join sep ([] ∷ l) ≡ sep ∷ join sep l
unfolding join
join_empty sep [] some = absurd (some refl)
join_empty sep (x ∷ l) some = refl

join_one : (sep : ℕ) (x : Text) → join sep (x ∷ []) ≡ x
unfolding join
join_one sep x = refl

-- The parts of a text, joined again, are the text.
pub join-split : (sep : ℕ) (s : Text) → join sep (split sep s) ≡ s
unfolding split
join-split sep [] = join_one sep []
join-split sep (c ∷ s) = elim (Bool-cases (c == sep)) [
  | inl e ↦ rw e (
      join_empty sep (split sep s) (split_some sep s)
      ∙ ap (λ t. sep ∷ t) (join-split sep s)
      ∙ ground arith)
  | inr e ↦
      rw e (join_cons sep c (split sep s) (split_some sep s) ∙ ap (λ t. c ∷ t) (join-split sep s))
]
