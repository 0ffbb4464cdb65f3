-- ===== src/Table/Mitigations/Laws.antt =====
-- What the table of mitigations shows.
use prefixd.Base.{ℕ, true, Option, none, some, List, [], or_else, In, arith, ◌≡◌, ◌↔◌, ◌⊎◌}
use prefixd.Base.Text.{Text, codes, same_iff}
use prefixd.Table.{Sign, sign_of}
use prefixd.Table.Sorting.{
  IsConsistent, IsSorted, sign_of-IsConsistent, directed-IsConsistent, along,
}
use prefixd.Table.Rows.{rows_lem}
use prefixd.Table.Mitigations.{
  Mitigation, SortField, by_status, by_victim_ip, by_vector, by_customer_id, by_created_at,
  by_expires_at, MitigationTable, found_by, is_customer, shows, comparison, compare_mitigations,
  filtered_mitigations,
}

module _ (locale_compare : Text → Text → Sign) (to_lower_case : Text → Text)
    (time_of : Text → ℕ) where
  -- What the filters and the search ask of a mitigation.
  abbrev pub IsWanted : MitigationTable → Mitigation → Type 0
  IsWanted s m =
      ((s.customer_filter ≡ codes "All") ⊎ (m.customer_id ≡ some s.customer_filter))
      × ((s.pop_filter ≡ codes "All") ⊎ (m.pop ≡ s.pop_filter))
      × ((s.search_query ≡ [])
          ⊎ (found_by locale_compare to_lower_case time_of s.search_query m ≡ true))

  customer_iff :
      (o : Option Text) (filter : Text)
      → (is_customer locale_compare to_lower_case time_of o filter ≡ true) ↔ (o ≡ some filter)
  customer_iff none filter = ground arith
  customer_iff (some customer) filter = ground (arith, same_iff customer filter)

  shows_iff :
      (s : MitigationTable) (m : Mitigation)
      → (shows locale_compare to_lower_case time_of s m ≡ true) ↔ IsWanted s m
  unfolding shows
  shows_iff s m = ground (
    arith,
    same_iff s.customer_filter (codes "All"),
    customer_iff m.customer_id s.customer_filter,
    same_iff s.pop_filter (codes "All"),
    same_iff m.pop s.pop_filter,
  )

  compare_mitigations-IsConsistent :
      IsConsistent locale_compare
      → (s : MitigationTable)
      → IsConsistent (compare_mitigations locale_compare to_lower_case time_of s)
  unfolding compare_mitigations
  compare_mitigations-IsConsistent c s =
      directed-IsConsistent s.sort_direction
        (comparison locale_compare to_lower_case time_of s.sort_field) (by_field s.sort_field)
    where
      by_field :
          (field : SortField) → IsConsistent (comparison locale_compare to_lower_case time_of field)
      by_field by_status = along (λ m. m.status) locale_compare c
      by_field by_victim_ip = along (λ m. m.victim_ip) locale_compare c
      by_field by_vector = along (λ m. m.vector) locale_compare c
      by_field by_customer_id = along (λ m. or_else m.customer_id []) locale_compare c
      by_field by_created_at = along (λ m. time_of m.created_at) sign_of sign_of-IsConsistent
      by_field by_expires_at = along (λ m. time_of m.expires_at) sign_of sign_of-IsConsistent

  -- The rows of the table are exactly the mitigations that the filters and the search ask for, and no
  -- row comes after a later one in the chosen order and direction, if `localeCompare` turns its sign
  -- when its arguments are swapped and is transitive.
  pub filtered_mitigations_lem :
      (mitigations : List Mitigation) (s : MitigationTable)
      → IsConsistent locale_compare
      → IsSorted
          (compare_mitigations locale_compare to_lower_case time_of s)
          (filtered_mitigations locale_compare to_lower_case time_of (some mitigations) s)
        × ((m : Mitigation)
            → In m (filtered_mitigations locale_compare to_lower_case time_of (some mitigations) s)
              ↔ (In m mitigations × IsWanted s m))
  unfolding filtered_mitigations
  filtered_mitigations_lem mitigations s c =
      let (sorted, same_rows) =
        rows_lem (compare_mitigations locale_compare to_lower_case time_of s)
          (compare_mitigations-IsConsistent c s) (shows locale_compare to_lower_case time_of s)
          mitigations in
      (sorted, λ m. ground (arith, same_rows m, shows_iff s m))
