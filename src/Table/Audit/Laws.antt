-- ===== src/Table/Audit/Laws.antt =====
-- What the table of the audit log shows.
use prefixd.Base.{ℕ, true, some, List, [], In, arith, ◌≡◌, ◌↔◌, ◌⊎◌}
use prefixd.Base.Text.{Text, codes, same_iff}
use prefixd.Table.{Sign, sign_of, text_includes}
use prefixd.Table.Sorting.{
  IsConsistent, IsSorted, sign_of-IsConsistent, directed-IsConsistent, along,
}
use prefixd.Table.Rows.{rows_lem}
use prefixd.Table.Audit.{
  AuditEntry, SortField, by_timestamp, by_actor, by_action, by_target, AuditTable, actor_of,
  or_text, shows, comparison, compare_entries, filtered_logs,
}

-- What the filters and the search ask of an entry.
abbrev pub IsWanted : AuditTable → AuditEntry → Type 0
IsWanted s e =
    ((s.action_filter ≡ codes "All") ⊎ (e.action ≡ s.action_filter))
    × ((s.actor_filter ≡ codes "All") ⊎ (e.actor_type ≡ s.actor_filter))
    × ((s.search_query ≡ [])
        ⊎ ((text_includes (or_text e.target_id []) s.search_query ≡ true)
            ⊎ (text_includes e.details s.search_query ≡ true)))

shows_iff : (s : AuditTable) (e : AuditEntry) → (shows s e ≡ true) ↔ IsWanted s e
unfolding shows
shows_iff s e = ground (
  arith,
  same_iff s.action_filter (codes "All"),
  same_iff e.action s.action_filter,
  same_iff s.actor_filter (codes "All"),
  same_iff e.actor_type s.actor_filter,
)

module _ (locale_compare : Text → Text → Sign) (time_of : Text → ℕ) where
  compare_entries-IsConsistent :
      IsConsistent locale_compare
      → (s : AuditTable) → IsConsistent (compare_entries locale_compare time_of s)
  unfolding compare_entries
  compare_entries-IsConsistent c s =
      directed-IsConsistent s.sort_direction (comparison locale_compare time_of s.sort_field)
        (by_field s.sort_field)
    where
      by_field : (field : SortField) → IsConsistent (comparison locale_compare time_of field)
      by_field by_timestamp = along (λ e. time_of e.timestamp) sign_of sign_of-IsConsistent
      by_field by_actor = along (λ e. actor_of e) locale_compare c
      by_field by_action = along (λ e. e.action) locale_compare c
      by_field by_target = along (λ e. or_text e.target_id []) locale_compare c

  -- The rows of the audit log are exactly the entries that the filters and the search ask for, and no
  -- row comes after a later one in the chosen order and direction, if `localeCompare` turns its sign
  -- when its arguments are swapped and is transitive.
  pub filtered_logs_lem :
      (entries : List AuditEntry) (s : AuditTable)
      → IsConsistent locale_compare
      → IsSorted
          (compare_entries locale_compare time_of s)
          (filtered_logs locale_compare time_of (some entries) s)
        × ((e : AuditEntry)
            → In e (filtered_logs locale_compare time_of (some entries) s)
              ↔ (In e entries × IsWanted s e))
  unfolding filtered_logs
  filtered_logs_lem entries s c =
      let (sorted, same_rows) =
        rows_lem (compare_entries locale_compare time_of s) (compare_entries-IsConsistent c s)
          (shows s) entries in
      (sorted, λ e. ground (arith, same_rows e, shows_iff s e))
