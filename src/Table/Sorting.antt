-- ===== src/Table/Sorting.antt =====
-- The sort of the tables: an order of the rows that the comparison allows, with the same rows.
use prefixd.Base.{
  ap, Bool, true, false, List, [], ◌∷◌, All, All-map, keep, In, arith, ◌≡◌, ◌≢◌, ◌↔◌, inl, inr,
  refl, Bool-cases,
}
use prefixd.Table.{
  desc, asc, directed, SortDirection, sign_of, Sign, negative, level, positive, opposite,
  is_negative, insert, sort,
}

-- A comparison that `sort` accepts: swapping the rows turns the sign, and not being after is
-- transitive.
pub record IsConsistent {A : Type 0} (compare : A → A → Sign) : Type 0 where
  pub swapped : (x y : A) → compare y x ≡ opposite (compare x y)
  pub chained :
      (x y z : A) → compare x y ≢ positive → compare y z ≢ positive → compare x z ≢ positive

pub sign_of-IsConsistent : IsConsistent sign_of
sign_of-IsConsistent = record {
  swapped = λ x y. ground arith;
  chained = λ x y z h k. λ e. absurd (ground arith);
}

pub directed-IsConsistent :
    {A : Type 0} (d : SortDirection) (compare : A → A → Sign)
    → IsConsistent compare
    → IsConsistent (λ x y. directed d (compare x y))
directed-IsConsistent asc compare c = c
directed-IsConsistent desc compare c = record {
  swapped = λ x y. ap opposite (c.swapped x y);
  chained =
      λ x y z h k e. ground (arith, c.chained z y x, c.swapped x y, c.swapped y z, c.swapped x z);
}

pub along :
    {A B : Type 0} (f : A → B) (compare : B → B → Sign)
    → IsConsistent compare
    → IsConsistent (λ x y. compare (f x) (f y))
along f compare c = record {
  swapped = λ x y. c.swapped (f x) (f y);
  chained = λ x y z. c.chained (f x) (f y) (f z);
}

module _ {A : Type 0} where
  -- No row is after a later one.
  abbrev pub IsSorted : (A → A → Sign) → List A → Type 0
  IsSorted compare [] = Unit
  IsSorted compare (x ∷ l) = All (λ y. compare x y ≢ positive) l × IsSorted compare l

  pub In-insert :
      (compare : A → A → Sign) (x y : A) (l : List A) → In y (insert compare x l) ↔ In y (x ∷ l)
  unfolding insert
  In-insert compare x y [] = ((λ m. m), λ m. m)
  In-insert compare x y (z ∷ l) = ground (arith, In-insert compare x y l)

  -- The sorted rows are the rows.
  pub In-sort : (compare : A → A → Sign) (y : A) (l : List A) → In y (sort compare l) ↔ In y l
  unfolding sort
  In-sort compare y [] = ((λ m. m), λ m. m)
  In-sort compare y (x ∷ l) =
      ground (arith, In-insert compare x y (sort compare l), In-sort compare y l)

  All-insert :
      (compare : A → A → Sign) (P : A → Type 0) (x : A) (l : List A)
      → P x
      → All P l
      → All P (insert compare x l)
  unfolding insert
  All-insert compare P x [] p h = (p, tt)
  All-insert compare P x (z ∷ l) p h = elim (Bool-cases (is_negative (compare z x))) [
    | inl e ↦ rw e (h.0, All-insert compare P x l p h.1)
    | inr e ↦ rw e (p, h)
  ]

module _ {A : Type 0} (compare : A → A → Sign) (c : IsConsistent compare) where
  before_iff : (x z : A) → (is_negative (compare z x) ≡ false) ↔ (compare x z ≢ positive)
  before_iff x z = rw (c.swapped z x) (by_sign (compare z x))
    where
      by_sign : (s : Sign) → (is_negative s ≡ false) ↔ (opposite s ≢ positive)
      by_sign negative = ((λ e. absurd (ground arith)), λ h. absurd (h refl))
      by_sign level = ((λ e q. absurd (ground arith)), λ h. refl)
      by_sign positive = ((λ e q. absurd (ground arith)), λ h. refl)

  not_after : (x z : A) → is_negative (compare z x) ≡ true → compare z x ≢ positive
  not_after x z e q = ground arith

  insert-IsSorted :
      (x : A) (l : List A) → IsSorted compare l → IsSorted compare (insert compare x l)
  unfolding insert
  insert-IsSorted x [] h = (tt, tt)
  insert-IsSorted x (z ∷ l) h = elim (Bool-cases (is_negative (compare z x))) [
    | inl e ↦ rw e (
      All-insert compare (λ y. compare z y ≢ positive) x l (not_after x z e) h.0,
      insert-IsSorted x l h.1,
    )
    | inr e ↦
        let first : compare x z ≢ positive = (before_iff x z).0 e in
        rw e (
          (
            first,
            All-map (λ y. compare z y ≢ positive) (λ y. compare x y ≢ positive) l
                (λ y later. c.chained x z y first later) h.0,
          ),
          h,
        )
  ]

  sort-IsSorted : (l : List A) → IsSorted compare (sort compare l)
  unfolding sort
  sort-IsSorted [] = tt
  sort-IsSorted (x ∷ l) = insert-IsSorted x (sort compare l) (sort-IsSorted l)

  -- The rows that the comparison puts level with a row.
  abbrev pub is_level_with : A → A → Bool
  is_level_with k y = elim (compare k y) [ level ↦ true | _ ↦ false ]

  passed :
      (k x z : A)
      → is_negative (compare z x) ≡ true
      → is_level_with k x ≡ true
      → is_level_with k z ≡ false
  passed k x z e at_x = elim (Bool-cases (is_level_with k z)) [
    | inl at_z ↦ absurd (
        c.chained x k z (λ q. ground (arith, c.swapped k x)) (λ q. ground arith)
          (ground (arith, c.swapped z x)))
    | inr e' ↦ e'
  ]

  keep-insert :
      (k x : A) (l : List A)
      → keep (is_level_with k) (insert compare x l) ≡ keep (is_level_with k) (x ∷ l)
  unfolding insert
  keep-insert k x [] = refl
  keep-insert k x (z ∷ l) = elim (Bool-cases (is_negative (compare z x))) [
    | inl e ↦ ground (arith, passed k x z e, keep-insert k x l)
    | inr e ↦ rw e refl
  ]

  keep-sort :
      (k : A) (l : List A) → keep (is_level_with k) (sort compare l) ≡ keep (is_level_with k) l
  unfolding sort
  keep-sort k [] = refl
  keep-sort k (x ∷ l) = ground (arith, keep-insert k x (sort compare l), keep-sort k l)

  -- With a comparison that `sort` accepts, no row comes after a later one, the sorted rows are the
  -- rows, and those that are level with a row are as many as they were and in the order they had.
  pub sort_lem :
      (l : List A)
      → IsSorted compare (sort compare l)
        × ((y : A) → In y (sort compare l) ↔ In y l)
        × ((k : A) → keep (is_level_with k) (sort compare l) ≡ keep (is_level_with k) l)
  sort_lem l = (sort-IsSorted l, λ y. In-sort compare y l, λ k. keep-sort k l)
