-- ===== src/Table/Audit.antt =====
-- The table of the audit log, frontend/components/dashboard/audit-log-content-live.tsx. The details of
-- an entry stand for the text that `JSON.stringify` makes of them; `localeCompare` and the reading of
-- dates belong to the browser and are arguments.
pub mod Laws
use prefixd.Base.{
  ℕ, suc, ◌+◌, ◌-◌, min, Bool, true, false, not, ◌&&◌, ◌||◌, Option, none, some, List, [], ◌∷◌,
  ◌++◌, if◌then◌else◌, ltb, keep, take, length, or_else, any, map,
}
use prefixd.Base.Text.{Text, codes, same, truthy}
use prefixd.Table.{
  Sign, sign_of, SortDirection, asc, desc, directed, toggled, text_includes, total_pages, sort,
  page_of, after_render,
}

pub record AuditEntry : Type 0 where
  pub audit_id : Text
  pub timestamp : Text
  pub actor_type : Text
  pub actor_id : Option Text
  pub action : Text
  pub target_type : Option Text
  pub target_id : Option Text
  pub details : Text

-- What a row shows of an entry: the actor, the target, and the details.
pub data Target : Type 0 where
  mitigation_link : (href shown : Text) → Target
  plain : Text → Target
  dash : Target

unfoldable pub target_of : AuditEntry → Target
target_of entry = elim entry.target_id [
  | none ↦ dash
  | some id ↦
      if not (truthy id)
      then dash
      else if same (or_else entry.target_type []) (codes "mitigation")
      then mitigation_link (codes "/mitigations/" ++ id) (take 8 id)
      else if ltb 20 (length id)
      then plain (take 20 id ++ codes "...")
      else plain id
]

-- `value || fallback`.
abbrev pub or_text : Option Text → Text → Text
or_text none fallback = fallback
or_text (some value) fallback = if truthy value then value else fallback

abbrev pub actor_of : AuditEntry → Text
actor_of entry = or_text entry.actor_id (codes "system")

unfoldable pub details_of : Bool → AuditEntry → Text
details_of is_expanded entry =
    let is_truncated = ltb 50 (length entry.details) in
    let mark = if is_expanded then 32 ∷ 9650 ∷ [] else codes "... " ++ (9660 ∷ []) in
    take 50 entry.details ++ (if is_truncated then mark else [])

pub data SortField : Type 0 where
  by_timestamp : SortField
  by_actor : SortField
  by_action : SortField
  by_target : SortField

pub record AuditTable : Type 0 where
  pub action_filter : Text
  pub actor_filter : Text
  pub search_query : Text
  pub sort_field : SortField
  pub sort_direction : SortDirection
  pub current_page : ℕ
  pub expanded_id : Option Text

abbrev pub initial : AuditTable
initial = record {
  action_filter = codes "All";
  actor_filter = codes "All";
  search_query = [];
  sort_field = by_timestamp;
  sort_direction = desc;
  current_page = 1;
  expanded_id = none;
}

abbrev pub same_field : SortField → SortField → Bool
same_field by_timestamp by_timestamp = true
same_field by_actor by_actor = true
same_field by_action by_action = true
same_field by_target by_target = true
same_field _ _ = false

unfoldable pub handle_sort : SortField → AuditTable → AuditTable
handle_sort field s =
    if same_field s.sort_field field
    then record s { sort_direction = toggled s.sort_direction }
    else record s { sort_field = field; sort_direction = desc }

-- `[...new Set(list)]`.
unfoldable pub distinct : List Text → List Text → List Text
distinct seen [] = []
distinct seen (x ∷ l) =
    let rest = distinct (x ∷ seen) l in if any (λ y. same y x) seen then rest else x ∷ rest

-- The choices of the filter by action.
unfoldable pub action_choices : Option (List AuditEntry) → List Text
unfolding distinct
action_choices none = codes "All" ∷ []
action_choices (some entries) = codes "All" ∷ distinct [] (map (λ e. e.action) entries)

-- The filter of `filteredLogs`.
unfoldable pub shows : AuditTable → AuditEntry → Bool
unfolding text_includes
shows s entry =
    if not (same s.action_filter (codes "All")) && not (same entry.action s.action_filter)
    then false
    else if not (same s.actor_filter (codes "All")) && not (same entry.actor_type s.actor_filter)
    then false
    else if truthy s.search_query
        && (not (text_includes (or_text entry.target_id []) s.search_query)
            && not (text_includes entry.details s.search_query))
    then false
    else true

module _ (locale_compare : Text → Text → Sign) (time_of : Text → ℕ) where
  unfoldable pub comparison : SortField → AuditEntry → AuditEntry → Sign
  comparison by_timestamp a b = sign_of (time_of a.timestamp) (time_of b.timestamp)
  comparison by_actor a b = locale_compare (actor_of a) (actor_of b)
  comparison by_action a b = locale_compare a.action b.action
  comparison by_target a b = locale_compare (or_text a.target_id []) (or_text b.target_id [])

  unfoldable pub compare_entries : AuditTable → AuditEntry → AuditEntry → Sign
  unfolding comparison
  compare_entries s a b = directed s.sort_direction (comparison s.sort_field a b)

  -- `none` is the data that has not arrived.
  unfoldable pub filtered_logs : Option (List AuditEntry) → AuditTable → List AuditEntry
  unfolding shows compare_entries
  filtered_logs none s = []
  filtered_logs (some entries) s = sort (compare_entries s) (keep (shows s) entries)

  unfoldable pub paginated_logs : Option (List AuditEntry) → AuditTable → List AuditEntry
  unfolding filtered_logs page_of
  paginated_logs entries s = page_of s.current_page (filtered_logs entries s)

  -- The effects after a rendering; whether a filter or the search has changed is given.
  unfoldable pub settle : Bool → Option (List AuditEntry) → AuditTable → AuditTable
  unfolding filtered_logs total_pages after_render
  settle changed entries s =
      let total = total_pages (length (filtered_logs entries s)) in
      record s { current_page = after_render changed total s.current_page }
