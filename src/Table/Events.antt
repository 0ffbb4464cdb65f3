-- ===== src/Table/Events.antt =====
-- The table of events, frontend/components/dashboard/events-content-live.tsx: its filters, its order
-- and its pages. `localeCompare` and the reading of dates belong to the browser and are arguments.
pub mod Laws
pub mod Panel
pub mod Details
mod Tests
use prefixd.Base.{
  ℕ, suc, ◌+◌, ◌-◌, ◌*◌, min, Bool, true, false, not, ◌&&◌, Option, none, some, List, [], ◌∷◌,
  if◌then◌else◌, ltb, leb, keep, length, or_else,
}
use prefixd.Base.Text.{Text, codes, same, truthy}
use prefixd.Table.{
  Sign, sign_of, SortDirection, asc, desc, directed, toggled, text_includes, total_pages, sort,
  page_of,
}

-- A confidence, as its numerator and its denominator less one.
pub record Fraction : Type 0 where
  pub numerator : ℕ
  pub denominator_less_one : ℕ

-- The fields of an event that the table and its panel read.
pub record Event : Type 0 where
  pub event_id : Text
  pub source : Text
  pub event_timestamp : Text
  pub ingested_at : Text
  pub external_event_id : Option Text
  pub victim_ip : Text
  pub vector : Text
  pub protocol : Option ℕ
  pub bps : Option ℕ
  pub pps : Option ℕ
  pub top_dst_ports_json : Text
  pub confidence : Option Fraction

pub data SortField : Type 0 where
  timestamp : SortField
  by_source : SortField
  by_victim_ip : SortField
  by_vector : SortField
  by_bps : SortField
  by_confidence : SortField

pub record EventTable : Type 0 where
  pub source_filter : Text
  pub vector_filter : Text
  pub search_query : Text
  pub sort_field : SortField
  pub sort_direction : SortDirection
  pub current_page : ℕ

abbrev pub initial : EventTable
initial = record {
  source_filter = codes "All";
  vector_filter = codes "All";
  search_query = [];
  sort_field = timestamp;
  sort_direction = desc;
  current_page = 1;
}

abbrev pub same_field : SortField → SortField → Bool
same_field timestamp timestamp = true
same_field by_source by_source = true
same_field by_victim_ip by_victim_ip = true
same_field by_vector by_vector = true
same_field by_bps by_bps = true
same_field by_confidence by_confidence = true
same_field _ _ = false

unfoldable pub handle_sort : SortField → EventTable → EventTable
handle_sort field s =
    if same_field s.sort_field field
    then record s { sort_direction = toggled s.sort_direction }
    else record s { sort_field = field; sort_direction = desc }

-- The fields of the search and of the two filters set these.
abbrev pub set_search_query : Text → EventTable → EventTable
set_search_query query s = record s { search_query = query }

abbrev pub set_source_filter : Text → EventTable → EventTable
set_source_filter source s = record s { source_filter = source }

abbrev pub set_vector_filter : Text → EventTable → EventTable
set_vector_filter vector s = record s { vector_filter = vector }

-- The filter of `filteredEvents`.
unfoldable pub shows : EventTable → Event → Bool
unfolding text_includes
shows s e =
    if not (same s.source_filter (codes "All")) && not (same e.source s.source_filter)
    then false
    else if not (same s.vector_filter (codes "All")) && not (same e.vector s.vector_filter)
    then false
    else if truthy s.search_query && not (text_includes e.victim_ip s.search_query)
    then false
    else true

-- `confidence || 0`.
abbrev pub confidence_of : Event → Fraction
confidence_of e = or_else e.confidence (record { numerator = 0; denominator_less_one = 0 })

-- The sign of the difference of two confidences.
abbrev pub fraction_sign : Fraction → Fraction → Sign
fraction_sign a b =
    sign_of (a.numerator * suc b.denominator_less_one) (b.numerator * suc a.denominator_less_one)

module _ (locale_compare : Text → Text → Sign) (time_of : Text → ℕ) where
  unfoldable pub comparison : SortField → Event → Event → Sign
  comparison timestamp a b = sign_of (time_of a.event_timestamp) (time_of b.event_timestamp)
  comparison by_source a b = locale_compare a.source b.source
  comparison by_victim_ip a b = locale_compare a.victim_ip b.victim_ip
  comparison by_vector a b = locale_compare a.vector b.vector
  comparison by_bps a b = sign_of (or_else a.bps 0) (or_else b.bps 0)
  comparison by_confidence a b = fraction_sign (confidence_of a) (confidence_of b)

  unfoldable pub compare_events : EventTable → Event → Event → Sign
  unfolding comparison
  compare_events s a b = directed s.sort_direction (comparison s.sort_field a b)

  -- `none` is the data that has not arrived.
  unfoldable pub filtered_events : Option (List Event) → EventTable → List Event
  unfolding shows compare_events
  filtered_events none s = []
  filtered_events (some events) s = sort (compare_events s) (keep (shows s) events)

  unfoldable pub paginated_events : Option (List Event) → EventTable → List Event
  unfolding filtered_events page_of
  paginated_events events s = page_of s.current_page (filtered_events events s)

  unfoldable pub pages : Option (List Event) → EventTable → ℕ
  unfolding filtered_events total_pages
  pages events s = total_pages (length (filtered_events events s))

  -- The buttons below the table; the second one is disabled on the last page and where there is none.
  unfoldable pub previous_page : EventTable → EventTable
  previous_page s = record s {
    current_page = if ltb (s.current_page - 1) 1 then 1 else s.current_page - 1;
  }

  unfoldable pub next_page : Option (List Event) → EventTable → EventTable
  unfolding pages
  next_page events s = record s { current_page = min (pages events s) (suc s.current_page) }
