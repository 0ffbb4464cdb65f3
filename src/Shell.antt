-- ===== src/Shell.antt =====
-- The parts around the pages: frontend/components/dashboard/sidebar.tsx, top-bar.tsx,
-- frontend/components/user-menu.tsx, error-boundary.tsx and connection-status.tsx, and
-- frontend/hooks/use-mobile.ts. `toUpperCase` belongs to the browser and is an argument.
pub mod Laws
pub mod Retry
mod Tests
use prefixd.Base.{
  ℕ, Bool, true, false, not, ◌&&◌, ◌||◌, Option, none, some, List, [], ◌∷◌, ◌++◌, map,
  if◌then◌else◌, ltb, keep, or_else,
}
use prefixd.Base.Text.{Text, codes, same}
use prefixd.Base.Decimal.{to_decimal}
use prefixd.Base.Http.{Fetched}
use prefixd.Session.{Auth, logged_out, step}
use prefixd.Permissions.{Health, use_permissions}
use prefixd.Feed.{ConnectionState, connected, connecting, disconnected, error}

pub record NavItem : Type 0 where
  pub href : Text
  pub label : Text
  pub admin_only : Bool

abbrev item : Text → Text → NavItem
item href label = record { href = href; label = label; admin_only = false }

abbrev pub nav_items : List NavItem
nav_items =
    item (codes "/") (codes "Overview")
    ∷ item (codes "/mitigations") (codes "Mitigations")
    ∷ item (codes "/events") (codes "Events")
    ∷ item (codes "/inventory") (codes "Inventory")
    ∷ item (codes "/ip-history") (codes "IP History")
    ∷ item (codes "/audit-log") (codes "Audit Log")
    ∷ item (codes "/config") (codes "Config")
    ∷ record { href = codes "/admin"; label = codes "Admin"; admin_only = true }
    ∷ []

abbrev pub items_for : (is_admin : Bool) → List NavItem
items_for is_admin = keep (λ i. not i.admin_only || is_admin) nav_items

unfoldable pub visible_nav_items : Auth → Health → List NavItem
unfolding use_permissions
visible_nav_items a h = items_for (use_permissions a h).is_admin

abbrev pub is_active : (pathname : Text) → NavItem → Bool
is_active pathname i = same pathname i.href

-- The number next to an item, by the number of active mitigations where it is known; `none` shows none.
unfoldable pub badge : Option ℕ → NavItem → Option Text
unfolding to_decimal
badge total_active i =
    let active_count = if same i.href (codes "/mitigations") then or_else total_active 0 else 0 in
    if ltb 0 active_count
    then some (if ltb 99 active_count then codes "99+" else to_decimal active_count)
    else none

-- The points of presence of the top bar, by the list of them and the one of the health request.
unfoldable pub pops_shown :
    (to_upper_case : Text → Text) → Option (List Text) → Option Text → List Text
pops_shown to_upper_case (some pops) current = map to_upper_case pops
pops_shown to_upper_case none none = []
pops_shown to_upper_case none (some pop) = to_upper_case pop ∷ []

-- The theme that the button of the top bar sets.
abbrev pub next_theme : Text → Text
next_theme theme = if same theme (codes "dark") then codes "light" else codes "dark"

-- `handleLogout` with what `fetch` gave back to `logout`: the provider, the addresses that are pushed,
-- and what it throws. Its flag is set until it has ended, either way.
unfoldable pub handle_logout : Fetched (Unit {0}) → Auth → Auth × List Text × Option Text
unfolding step
handle_logout r a =
    let (a', thrown) = step a (logged_out r) in
    (a', elim thrown [ none ↦ codes "/login" ∷ [] | some message ↦ [] ], thrown)

-- Whether the menu is rendered.
abbrev pub menu_is_shown : Auth → Bool
menu_is_shown a = elim a.operator [ none ↦ false | some o ↦ true ]

-- The state of `ErrorBoundary`: the error that was caught.
abbrev pub Boundary : Type 0
Boundary = Option Text

abbrev pub caught : Text → Boundary → Boundary
caught e s = some e

abbrev pub try_again : Boundary → Boundary
try_again s = none

pub data Rendered : Type 0 where
  children given_fallback message : Rendered

-- What it renders, by whether a fallback was given.
unfoldable pub boundary_shows : (has_fallback : Bool) → Boundary → Rendered
boundary_shows has_fallback none = children
boundary_shows true (some e) = given_fallback
boundary_shows false (some e) = message

pub record StatusConfig : Type 0 where
  pub label : Text
  pub description : Text
  pub animate : Bool

unfoldable pub status_config : ConnectionState → StatusConfig
status_config connected = record {
  label = codes "Connected";
  description = codes "Real-time updates active";
  animate = false;
}
status_config connecting = record {
  label = codes "Connecting...";
  description = codes "Establishing connection";
  animate = true;
}
status_config disconnected = record {
  label = codes "Disconnected";
  description = codes "Reconnecting...";
  animate = false;
}
status_config error = record {
  label = codes "Error";
  description = codes "Connection failed";
  animate = false;
}

-- `useIsMobile`: undefined until the effect has run, and then by the width of the window.
abbrev pub is_mobile : (inner_width : Option ℕ) → Bool
is_mobile none = false
is_mobile (some width) = ltb width 768
