-- ===== src/Table/Mitigations.antt =====
-- The table of mitigations, frontend/components/dashboard/mitigations-content-live.tsx: its filters, its
-- order, its pages and the effects that turn the page. `localeCompare`, `toLowerCase` and the reading
-- of dates belong to the browser and are arguments.
pub mod Laws
use prefixd.Base.{
  ℕ, suc, ◌+◌, ◌-◌, Bool, true, false, not, ◌&&◌, ◌||◌, Option, none, some, List, [], ◌∷◌, ◌++◌,
  if◌then◌else◌, ltb, keep, any, length, or_else,
}
use prefixd.Base.Text.{Text, codes, same, truthy}
use prefixd.Table.{
  Sign, sign_of, SortDirection, asc, desc, directed, toggled, text_includes, total_pages, sort,
  page_of,
}

-- The fields of a mitigation that the table reads.
pub record Mitigation : Type 0 where
  pub mitigation_id : Text
  pub status : Text
  pub customer_id : Option Text
  pub pop : Text
  pub victim_ip : Text
  pub vector : Text
  pub action_type : Text
  pub created_at : Text
  pub expires_at : Text

pub data SortField : Type 0 where
  by_status : SortField
  by_victim_ip : SortField
  by_vector : SortField
  by_customer_id : SortField
  by_created_at : SortField
  by_expires_at : SortField

pub record MitigationTable : Type 0 where
  pub status_filters : List Text
  pub search_query : Text
  pub sort_field : SortField
  pub sort_direction : SortDirection
  pub current_page : ℕ
  pub customer_filter : Text
  pub pop_filter : Text

-- The table when it is mounted, with the search that its page was given.
unfoldable pub mount : Option Text → MitigationTable
mount initial_search =
    let query : Text = or_else initial_search [] in
    record {
      status_filters = if truthy query then [] else codes "active" ∷ codes "escalated" ∷ [];
      search_query = query;
      sort_field = by_created_at;
      sort_direction = desc;
      current_page = 1;
      customer_filter = codes "All";
      pop_filter = codes "All";
    }

unfoldable pub toggle_status_filter : Text → MitigationTable → MitigationTable
toggle_status_filter status s = record s {
  status_filters =
      if any (λ t. same t status) s.status_filters
      then keep (λ t. not (same t status)) s.status_filters
      else s.status_filters ++ (status ∷ []);
  current_page = 1;
}

abbrev pub same_field : SortField → SortField → Bool
same_field by_status by_status = true
same_field by_victim_ip by_victim_ip = true
same_field by_vector by_vector = true
same_field by_customer_id by_customer_id = true
same_field by_created_at by_created_at = true
same_field by_expires_at by_expires_at = true
same_field _ _ = false

unfoldable pub handle_sort : SortField → MitigationTable → MitigationTable
handle_sort field s =
    if same_field s.sort_field field
    then record s { sort_direction = toggled s.sort_direction }
    else record s { sort_field = field; sort_direction = desc }

-- The fields of the search and of the two filters set these.
abbrev pub set_search_query : Text → MitigationTable → MitigationTable
set_search_query query s = record s { search_query = query }

abbrev pub set_customer_filter : Text → MitigationTable → MitigationTable
set_customer_filter customer s = record s { customer_filter = customer; current_page = 1 }

abbrev pub set_pop_filter : Text → MitigationTable → MitigationTable
set_pop_filter pop s = record s { pop_filter = pop; current_page = 1 }

module _ (locale_compare : Text → Text → Sign) (to_lower_case : Text → Text)
    (time_of : Text → ℕ) where
  -- Whether a mitigation matches the search.
  unfoldable pub found_by : Text → Mitigation → Bool
  unfolding text_includes
  found_by query m =
      let q : Text = to_lower_case query in
      let customer : Text = or_else m.customer_id [] in
      text_includes m.victim_ip q
      || text_includes (to_lower_case m.vector) q
      || (truthy customer && text_includes (to_lower_case customer) q)
      || text_includes (to_lower_case m.mitigation_id) q

  abbrev pub is_customer : Option Text → Text → Bool
  is_customer none filter = false
  is_customer (some customer) filter = same customer filter

  -- The filter of `filteredMitigations`.
  unfoldable pub shows : MitigationTable → Mitigation → Bool
  unfolding found_by
  shows s m =
      if not (same s.customer_filter (codes "All"))
        && not (is_customer m.customer_id s.customer_filter)
      then false
      else if not (same s.pop_filter (codes "All")) && not (same m.pop s.pop_filter)
      then false
      else if truthy s.search_query && not (found_by s.search_query m)
      then false
      else true

  unfoldable pub comparison : SortField → Mitigation → Mitigation → Sign
  comparison by_status a b = locale_compare a.status b.status
  comparison by_victim_ip a b = locale_compare a.victim_ip b.victim_ip
  comparison by_vector a b = locale_compare a.vector b.vector
  comparison by_customer_id a b =
      locale_compare (or_else a.customer_id []) (or_else b.customer_id [])
  comparison by_created_at a b = sign_of (time_of a.created_at) (time_of b.created_at)
  comparison by_expires_at a b = sign_of (time_of a.expires_at) (time_of b.expires_at)

  unfoldable pub compare_mitigations : MitigationTable → Mitigation → Mitigation → Sign
  unfolding comparison
  compare_mitigations s a b = directed s.sort_direction (comparison s.sort_field a b)

  -- `none` is the data that has not arrived.
  unfoldable pub filtered_mitigations : Option (List Mitigation) → MitigationTable → List Mitigation
  unfolding shows compare_mitigations
  filtered_mitigations none s = []
  filtered_mitigations (some mitigations) s =
      sort (compare_mitigations s) (keep (shows s) mitigations)
