-- ===== src/Table/Pages.antt =====
-- The pages of a table: they cut its rows, and a page is empty exactly where it is not one of them.
use prefixd.Base.{
  ℕ, zero, suc, ◌+◌, ◌-◌, ◌*◌, ◌/◌, ◌≤◌, ◌<◌, min, false, List, [], ◌∷◌, ◌++◌, leb, take, drop,
  length, length-take, length-drop, arith, ◌≡◌, ◌≢◌, ◌↔◌, refl, sym, ap, ◌∙◌, Bool-cases, inl, inr,
}
use prefixd.Table.{total_pages, page_of}

start : (first : ℕ) → (suc first - 1) * 20 ≡ first * 20
start first = omega arith

module _ {A : Type 0} where
  -- The pages from one page on, as many as are asked for, one after the other.
  unfoldable pub pages_from : ℕ → ℕ → List A → List A
  unfolding page_of
  pages_from first zero l = []
  pages_from first (suc count) l = page_of first l ++ pages_from (suc first) count l

  empty_iff : (l : List A) → (l ≡ []) ↔ (length l ≡ 0)
  empty_iff [] = ground arith
  empty_iff (x ∷ l) = ground arith

  pub length-page_of :
      (p : ℕ) (l : List A) → length (page_of p l) ≡ min 20 (length l - (p - 1) * 20)
  unfolding page_of
  length-page_of p l =
      length-take 20 (drop ((p - 1) * 20) l) ∙ ap (min 20) (length-drop ((p - 1) * 20) l)

  -- A page from the first one on has rows exactly where it is at most the number of pages.
  pub page_of_nonempty :
      (p : ℕ) (l : List A) → 1 ≤ p → (page_of p l ≢ []) ↔ (p ≤ total_pages (length l))
  unfolding total_pages
  page_of_nonempty p l positive = (
    λ some_rows. elim (Bool-cases (leb p ((length l + 19) / 20))) [
      | inl e ↦ ground arith
      | inr e ↦ absurd (
          some_rows ((empty_iff (page_of p l)).1 (omega (arith, length-page_of p l, ltb_ge_lem e))))
    ],
    λ le e. absurd (omega (arith, length-page_of p l, (empty_iff (page_of p l)).0 e, le)),
  )
    where
      ltb_ge_lem : leb p ((length l + 19) / 20) ≡ false → (length l + 19) / 20 < p
      ltb_ge_lem e = ground arith

  pub page_of_beyond : (p : ℕ) (l : List A) → total_pages (length l) < p → page_of p l ≡ []
  unfolding total_pages
  page_of_beyond p l lt = (empty_iff (page_of p l)).1 (omega (arith, length-page_of p l, lt))

  drop_all : (n : ℕ) (l : List A) → length l ≤ n → drop n l ≡ []
  drop_all n l le = (empty_iff (drop n l)).1 (omega (arith, length-drop n l))

  drop_nil : (n : ℕ) → drop {A = A} n [] ≡ []
  drop_nil zero = refl
  drop_nil (suc n) = refl

  drop-drop : (m n k : ℕ) (l : List A) → k ≡ n + m → drop m (drop n l) ≡ drop k l
  drop-drop m zero k l e = ap (λ i. drop i l) (omega (arith, e))
  drop-drop m (suc n) k [] e = drop_nil m ∙ sym (drop_nil k)
  drop-drop m (suc n) zero (x ∷ l) e = absurd (omega (arith, e))
  drop-drop m (suc n) (suc k) (x ∷ l) e = drop-drop m n k l (omega (arith, e))

  take_nil : (n : ℕ) → take {A = A} n [] ≡ []
  take_nil zero = refl
  take_nil (suc n) = refl

  append-take : (m n k : ℕ) (l : List A) → k ≡ n + m → take n l ++ take m (drop n l) ≡ take k l
  append-take m zero k l e = ap (λ i. take i l) (omega (arith, e))
  append-take m (suc n) k [] e = take_nil m ∙ sym (take_nil k)
  append-take m (suc n) zero (x ∷ l) e = absurd (omega (arith, e))
  append-take m (suc n) (suc k) (x ∷ l) e = ap (λ t. x ∷ t) (append-take m n k l (omega (arith, e)))

  take_all : (n : ℕ) (l : List A) → length l ≤ n → take n l ≡ l
  take_all zero [] le = refl
  take_all zero (x ∷ l) le = absurd (omega (arith, le))
  take_all (suc n) [] le = refl
  take_all (suc n) (x ∷ l) le = ap (λ t. x ∷ t) (take_all n l (omega (arith, le)))

  pages_from_lem :
      (first count : ℕ) (l : List A)
      → pages_from (suc first) count l ≡ take (count * 20) (drop (first * 20) l)
  unfolding pages_from page_of
  pages_from_lem first zero l = refl
  pages_from_lem first (suc count) l =
      ap (λ i. take 20 (drop i l) ++ pages_from (suc (suc first)) count l) (start first)
      ∙ ap (λ rest. take 20 (drop (first * 20) l) ++ rest)
          (pages_from_lem (suc first) count l
            ∙ ap (take (count * 20))
                (sym (drop-drop 20 (first * 20) (suc first * 20) l (omega arith))))
      ∙ append-take (count * 20) 20 (suc count * 20) (drop (first * 20) l) (omega arith)

  -- The pages from the first one to the last one, one after the other, are the rows of the table: no
  -- row is left out, none is on two pages, and their order stays.
  pub pages_from-total_pages : (l : List A) → pages_from 1 (total_pages (length l)) l ≡ l
  unfolding total_pages
  pages_from-total_pages l =
      pages_from_lem 0 (total_pages (length l)) l
      ∙ take_all ((length l + 19) / 20 * 20) l (omega arith)
