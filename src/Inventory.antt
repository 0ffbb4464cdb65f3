-- ===== src/Inventory.antt =====
-- The page of the inventory, frontend/app/(dashboard)/inventory/page.tsx: what a search finds, and the
-- cards of the customers, which React keeps by their keys. `toLowerCase` belongs to the browser and is
-- an argument.
pub mod Laws
mod Tests
use prefixd.Base.{
  ℕ, ◌+◌, Bool, true, false, not, ◌||◌, Option, none, some, List, [], ◌∷◌, map, if◌then◌else◌, leb,
  keep, any, length, or_else,
}
use prefixd.Base.Text.{Text, codes, same, truthy}
use prefixd.Base.Trim.{trim}
use prefixd.Base.Decimal.{to_decimal}
use prefixd.Api.Types.{ConfigCustomer, ConfigService, ConfigAsset}
use prefixd.Table.{text_includes}

module _ (to_lower_case : Text → Text) where
  -- `a.role?.toLowerCase().includes(q)`.
  abbrev pub role_includes : Text → Option Text → Bool
  role_includes q none = false
  role_includes q (some role) = text_includes (to_lower_case role) q

  -- `ports?.some((p) => String(p).includes(q))`.
  unfoldable pub ports_include : Text → Option (List ℕ) → Bool
  unfolding text_includes to_decimal
  ports_include q none = false
  ports_include q (some ports) = any (λ p. text_includes (to_decimal p) q) ports

  unfoldable pub finds_service : Text → ConfigService → Bool
  unfolding text_includes ports_include
  finds_service q s =
      if text_includes (to_lower_case s.name) q
      then true
      else if text_includes (to_lower_case s.service_id) q
      then true
      else if ports_include q s.tcp_ports
      then true
      else if ports_include q s.udp_ports
      then true
      else any (λ a. text_includes a.ip q || role_includes q a.role) s.assets

  unfoldable pub finds_customer : Text → ConfigCustomer → Bool
  unfolding text_includes finds_service
  finds_customer q c =
      if text_includes (to_lower_case c.customer_id) q
      then true
      else if text_includes (to_lower_case c.name) q
      then true
      else if text_includes (to_lower_case c.policy_profile) q
      then true
      else if any (λ p. text_includes p q) c.prefixes
      then true
      else any (finds_service q) c.services

  -- The customers that the page shows; `none` is the inventory that has not arrived.
  unfoldable pub filtered : Option (List ConfigCustomer) → Text → List ConfigCustomer
  unfolding finds_customer trim
  filtered none search = []
  filtered (some customers) search =
      if not (truthy (trim search))
      then customers
      else keep (finds_customer (to_lower_case search)) customers

-- The number of addresses on a card.
unfoldable pub total_assets : List ConfigService → ℕ
total_assets [] = 0
total_assets (s ∷ services) = length s.assets + total_assets services

-- The cards on the page, by their keys, and whether each is open.
abbrev pub Cards : Type 0
Cards = List (Text × Bool)

unfoldable pub card_of : Text → Cards → Option Bool
card_of key [] = none
card_of key ((k, state) ∷ cards) =
    let rest = card_of key cards in if same k key then some state else rest

-- The cards after a rendering: a card whose key was on the page keeps its state, a new one starts with
-- `defaultOpen`.
unfoldable pub render_cards : Cards → List ConfigCustomer → Cards
unfolding card_of
render_cards before shown =
    map (λ c. (c.customer_id, or_else (card_of c.customer_id before) (leb (length shown) 3))) shown

-- A click on the header of a card.
unfoldable pub toggle_card : Text → Cards → Cards
toggle_card key cards = map (λ c. (c.0, if same c.0 key then not c.1 else c.1)) cards

-- The colour of the badge of a profile.
unfoldable pub profile_color : Text → Text
profile_color profile =
    if same profile (codes "strict")
    then codes "destructive"
    else if same profile (codes "relaxed")
    then codes "secondary"
    else codes "default"

-- What stands below the search.
pub data Shown : Type 0 where
  failed loading no_matches no_customers : Shown
  cards : List ConfigCustomer → Shown

module _ (to_lower_case : Text → Text) where
  unfoldable pub shown : (failed_to_load : Bool) → Option (List ConfigCustomer) → Text → Shown
  unfolding filtered
  shown true customers search = failed
  shown false none search = loading
  shown false (some customers) search = elim (filtered to_lower_case (some customers) search) [
    | [] ↦ if truthy search then no_matches else no_customers
    | c ∷ l ↦ cards (c ∷ l)
  ]
