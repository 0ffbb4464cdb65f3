-- ===== src/History.antt =====
-- The history of an address, frontend/app/(dashboard)/ip-history/page.tsx: the search and the time line.
-- The reading of dates and the percent-encoding belong to the browser and are arguments.
pub mod Timeline
mod Tests
use prefixd.Base.{
  ℕ, ◌+◌, Bool, true, false, Option, none, some, List, [], ◌∷◌, ◌++◌, map, if◌then◌else◌,
}
use prefixd.Base.Text.{Text, codes, truthy}
use prefixd.Base.Trim.{trim}
use prefixd.Api.Types.{IpHistoryEvent}
use prefixd.Table.{Sign, sign_of, sort, text_includes}

-- The fields of a mitigation that the time line takes.
pub record HistoryMitigation : Type 0 where
  pub mitigation_id : Text
  pub status : Text
  pub action_type : Text
  pub vector : Text
  pub created_at : Text
  pub withdrawn_at : Option Text
  pub expires_at : Text

pub data TimelineEntry : Type 0 where
  event : IpHistoryEvent → TimelineEntry
  mitigation : HistoryMitigation → TimelineEntry

-- `entry.timestamp`.
abbrev pub timestamp : TimelineEntry → Text
timestamp (event ev) = ev.event_timestamp
timestamp (mitigation m) = m.created_at

pub record History : Type 0 where
  pub events : List IpHistoryEvent
  pub mitigations : List HistoryMitigation

module _ (time_of : Text → ℕ) where
  -- The sign of the times' difference, the second less the first.
  abbrev pub compare_entries : TimelineEntry → TimelineEntry → Sign
  compare_entries a b = sign_of (time_of (timestamp b)) (time_of (timestamp a))

  -- `none` is the data that has not arrived.
  unfoldable pub timeline : Option History → List TimelineEntry
  unfolding sort
  timeline none = []
  timeline (some history) =
      sort compare_entries (map event history.events ++ map mitigation history.mitigations)

pub record IpHistoryPage : Type 0 where
  pub search_input : Text
  pub active_ip : Text

-- The page for the `ip` of its address.
abbrev pub mount : Option Text → IpHistoryPage
mount none = record { search_input = []; active_ip = [] }
mount (some ip) = record { search_input = ip; active_ip = ip }

-- What the page asks for; `none` asks for nothing.
abbrev pub asked : IpHistoryPage → Option Text
asked s = if truthy s.active_ip then some s.active_ip else none

-- The page, and the address that the router replaces, if it does.
unfoldable pub handle_search :
    (encode_uri_component : Text → Text) → IpHistoryPage → IpHistoryPage × Option Text
unfolding trim
handle_search encode_uri_component s =
    let trimmed = trim s.search_input in
    if truthy trimmed
    then (
      record s { active_ip = trimmed },
      some (codes "/ip-history?ip=" ++ encode_uri_component trimmed),
    )
    else (s, none)

-- The hint below a failed search.
unfoldable pub error_hint : Option Text → Text
unfolding text_includes
error_hint none = codes "Please retry or check API connectivity."
error_hint (some message) =
    if text_includes message (codes "400")
    then codes "Enter a valid IP address and try again."
    else codes "Please retry or check API connectivity."
