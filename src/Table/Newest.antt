-- ===== src/Table/Newest.antt =====
-- Lists that are sorted with the newest entry first, as on frontend/app/(dashboard)/ip-history/page.tsx
-- and in frontend/components/dashboard/activity-feed-live.tsx.
use prefixd.Base.{
  sym, ap, keep-ext, ◌∙◌, ℕ, suc, ◌≤◌, List, [], ◌∷◌, ◌==◌, keep, length, In, All, All-map, arith,
  ◌≡◌, ◌≢◌, ◌↔◌, refl,
}
use prefixd.Table.{Sign, sign_of, positive, sort, insert}
use prefixd.Table.Sorting.{IsConsistent, IsSorted, sort_lem, is_level_with}

module _ {A : Type 0} (time : A → ℕ) where
  -- The sign of the times' difference, the second less the first.
  abbrev pub compare_newest : A → A → Sign
  compare_newest a b = sign_of (time b) (time a)

  -- No entry is older than a later one.
  abbrev pub IsNewestFirst : List A → Type 0
  IsNewestFirst [] = Unit
  IsNewestFirst (x ∷ l) = All (λ y. time y ≤ time x) l × IsNewestFirst l

  -- The entries of that time.
  abbrev pub at_time : ℕ → List A → List A
  at_time t l = keep (λ x. time x == t) l

  newer : (a b : ℕ) → sign_of a b ≢ positive → a ≤ b
  newer a b h = ground arith

  compare-IsConsistent : IsConsistent compare_newest
  compare-IsConsistent = record {
    swapped = λ x y. ground arith;
    chained = λ x y z h k e. absurd (ground arith);
  }

  newest_first : (l : List A) → IsSorted compare_newest l → IsNewestFirst l
  newest_first [] h = tt
  newest_first (x ∷ l) h = (
    All-map (λ y. compare_newest x y ≢ positive) (λ y. time y ≤ time x) l
        (λ y. newer (time y) (time x)) h.0,
    newest_first l h.1,
  )

  level_iff : (k y : A) → (time y == time k) ≡ is_level_with compare_newest compare-IsConsistent k y
  level_iff k y = ground arith

  at_time-level :
      (k : A) (l : List A)
      → at_time (time k) l ≡ keep (is_level_with compare_newest compare-IsConsistent k) l
  at_time-level k l =
      keep-ext (λ y. time y == time k) (is_level_with compare_newest compare-IsConsistent k) l
        (level_iff k)

  -- Sorting puts no entry before a newer one, keeps the entries, and leaves those of one time in the
  -- order in which they arrived.
  pub newest_lem :
      (arrived : List A)
      → let shown = sort compare_newest arrived in
        IsNewestFirst shown
        × ((x : A) → In x shown ↔ In x arrived)
        × ((k : A) → at_time (time k) shown ≡ at_time (time k) arrived)
  newest_lem arrived =
      let shown = sort compare_newest arrived in
      let (sorted, same_rows, stable) = sort_lem compare_newest compare-IsConsistent arrived in
      (
        newest_first shown sorted,
        same_rows,
        λ k. at_time-level k shown ∙ stable k ∙ sym (at_time-level k arrived),
      )

module _ {A : Type 0} (compare : A → A → Sign) where
  length-insert : (x : A) (l : List A) → length (insert compare x l) ≡ suc (length l)
  unfolding insert
  length-insert x [] = refl
  length-insert x (y ∷ l) = ground (arith, length-insert x l)

  pub length-sort : (l : List A) → length (sort compare l) ≡ length l
  unfolding sort
  length-sort [] = refl
  length-sort (x ∷ l) = length-insert x (sort compare l) ∙ ap suc (length-sort l)
