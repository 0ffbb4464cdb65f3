-- ===== src/Table/Rows.antt =====
-- The rows of a table: what a filter leaves of the data, sorted.
use prefixd.Base.{Bool, true, List, [], ◌∷◌, keep, In, arith, ◌≡◌, ◌↔◌}
use prefixd.Table.{Sign, sort}
use prefixd.Table.Sorting.{IsConsistent, IsSorted, sort_lem}

pub keep_iff :
    {A : Type 0} (p : A → Bool) (x : A) (l : List A) → In x (keep p l) ↔ (In x l × (p x ≡ true))
keep_iff p x [] = ((λ m. absurd m), λ h. h.0)
keep_iff p x (y ∷ l) = ground (arith, keep_iff p x l)

-- The rows are exactly the data that pass the filter, and no row comes after a later one.
pub rows_lem :
    {A : Type 0} (compare : A → A → Sign)
    → IsConsistent compare
    → (p : A → Bool) (l : List A)
    → IsSorted compare (sort compare (keep p l))
      × ((x : A) → In x (sort compare (keep p l)) ↔ (In x l × (p x ≡ true)))
rows_lem compare c p l =
    let (sorted, same_rows, stable) = sort_lem compare c (keep p l) in
    (sorted, λ x. ground (arith, same_rows x, keep_iff p x l))
