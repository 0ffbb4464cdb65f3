-- ===== src/Palette.antt =====
-- The command palette, frontend/components/dashboard/command-palette.tsx: what it finds and the pages
-- that it leads to; and what the page of mitigations, frontend/app/(dashboard)/mitigations/page.tsx,
-- and the page of events read from their addresses. `toLowerCase` and the percent-encoding belong to the
-- browser and are arguments.
pub mod Laws
pub mod Links
mod Tests
use prefixd.Base.{
  ℕ, Bool, true, false, ◌&&◌, ◌||◌, Option, none, some, List, [], ◌∷◌, ◌++◌, map, if◌then◌else◌,
  keep, take, or_else, length, ltb,
}
use prefixd.Base.Text.{Text, codes, same, truthy}
use prefixd.Api.Query.{Entry}
use prefixd.Table.{text_includes}
use prefixd.Table.Mitigations as Mitigations
use prefixd.Table.Mitigations.{Mitigation, MitigationTable}
use prefixd.Table.Events.{Event}
use prefixd.Table.Events.Panel.{Selection}

module _ (to_lower_case : Text → Text) where
  abbrev pub includes_lower : Text → Text → Bool
  includes_lower text search = text_includes (to_lower_case text) (to_lower_case search)

  -- `m.customer_id && …`.
  abbrev pub customer_includes : Option Text → Text → Bool
  customer_includes none search = false
  customer_includes (some id) search = truthy id && includes_lower id search

  unfoldable pub finds_mitigation : Text → Mitigation → Bool
  unfolding text_includes
  finds_mitigation search m =
      includes_lower m.mitigation_id search
      || text_includes m.victim_ip search
      || includes_lower m.vector search
      || customer_includes m.customer_id search

  unfoldable pub finds_event : Text → Event → Bool
  unfolding text_includes
  finds_event search e =
      includes_lower e.event_id search
      || text_includes e.victim_ip search
      || includes_lower e.vector search

  -- `none` is the data that has not arrived.
  unfoldable pub filtered_mitigations : Option (List Mitigation) → Text → List Mitigation
  unfolding finds_mitigation
  filtered_mitigations mitigations search =
      take 5 (keep (finds_mitigation search) (or_else mitigations []))

  unfoldable pub filtered_events : Option (List Event) → Text → List Event
  unfolding finds_event
  filtered_events events search = take 5 (keep (finds_event search) (or_else events []))

-- An entry of the palette: its label, the address that it pushes, and the key after g that it shows.
pub record PageItem : Type 0 where
  pub label : Text
  pub href : Text
  pub key : Text

abbrev item : Text → Text → Text → PageItem
item label href key = record { label = label; href = href; key = key }

abbrev pub pages : List PageItem
pages =
    item (codes "Overview") (codes "/") (codes "o")
    ∷ item (codes "Mitigations") (codes "/mitigations") (codes "m")
    ∷ item (codes "Events") (codes "/events") (codes "e")
    ∷ item (codes "Inventory") (codes "/inventory") (codes "i")
    ∷ item (codes "IP History") (codes "/ip-history") (codes "h")
    ∷ item (codes "Audit Log") (codes "/audit-log") (codes "a")
    ∷ item (codes "Config") (codes "/config") (codes "c")
    ∷ []

-- The address that an entry for a mitigation or an event pushes.
abbrev pub mitigation_href : Mitigation → Text
mitigation_href m = codes "/mitigations/" ++ m.mitigation_id

abbrev pub event_href : (encode_uri_component : Text → Text) → Event → Text
event_href encode_uri_component e = codes "/events?id=" ++ encode_uri_component e.event_id

-- The search parameters of the quick actions, all on "/mitigations".
abbrev pub mitigate_now : List Entry
mitigate_now = (codes "mitigate", codes "true") ∷ []

abbrev pub view_active : List Entry
view_active = (codes "status", codes "active") ∷ []

abbrev pub view_escalated : List Entry
view_escalated = (codes "status", codes "escalated") ∷ []

-- What a chosen entry does, in this order.
pub data Effect : Type 0 where
  on_open_change : Bool → Effect
  push : Text → Effect

abbrev pub run_command : Text → List Effect
run_command href = on_open_change false ∷ push href ∷ []

-- `searchParams.get(name)`.
abbrev pub param : Text → List Entry → Option Text
param name [] = none
param name ((n, v) ∷ l) = if same n name then some v else param name l

abbrev pub is_true : Option Text → Bool
is_true none = false
is_true (some v) = same v (codes "true")

-- The page of mitigations when it is mounted: its table, and whether the dialog is open that reports
-- an attack.
unfoldable pub mitigations_page : List Entry → MitigationTable × Bool
unfolding Mitigations.mount
mitigations_page params =
    (Mitigations.mount (param (codes "ip") params), is_true (param (codes "mitigate") params))

-- The event that the page of events, frontend/app/(dashboard)/events/page.tsx, selects when it is
-- mounted, from the parameters of its address.
unfoldable pub events_page : (get : Text → Option Text) → Selection
events_page get = get (codes "id")

-- The event that is selected after a link has been followed: a page that is mounted already keeps its
-- state, here given, since the address only sets the initial one.
unfoldable pub after_link : Option Selection → (get : Text → Option Text) → Selection
unfolding events_page
after_link none get = events_page get
after_link (some selected) get = selected
