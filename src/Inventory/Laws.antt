-- ===== src/Inventory/Laws.antt =====
-- What the search of frontend/app/(dashboard)/inventory/page.tsx finds, and which cards stay as they
-- were.
use prefixd.Base.{
  ℕ, Bool, true, Bool-cases, inl, inr, or_else, length, leb, ◌||◌, Option, none, some, List, [],
  ◌∷◌, ◌++◌, map, if◌then◌else◌, keep, keep-ext, any, arith, ◌≡◌, refl, sym, ap, ◌∙◌,
}
use prefixd.Base.Text.{Text, same, same_iff, truthy}
use prefixd.Base.Trim.{trim}
use prefixd.Base.Decimal.{to_decimal}
use prefixd.Api.Types.{ConfigCustomer, ConfigService, ConfigAsset}
use prefixd.Table.{text_includes}
use prefixd.Inventory.{
  role_includes, ports_include, finds_service, finds_customer, filtered, Cards, card_of,
  render_cards,
}

abbrev pub flat_map {ℓ κ} : {A : Type ℓ} {B : Type κ} → (A → List B) → List A → List B
flat_map f [] = []
flat_map f (x ∷ l) = f x ++ flat_map f l

any-append : {A : Type 0} (p : A → Bool) (l m : List A) → any p (l ++ m) ≡ (any p l || any p m)
any-append p [] m = refl
any-append p (x ∷ l) m = ground (arith, any-append p l m)

any-flat_map :
    {A B : Type 0} (p : B → Bool) (f : A → List B) (l : List A)
    → any p (flat_map f l) ≡ any (λ a. any p (f a)) l
any-flat_map p f [] = refl
any-flat_map p f (x ∷ l) =
    any-append p (f x) (flat_map f l) ∙ ap (λ b. any p (f x) || b) (any-flat_map p f l)

any-ext : {A : Type 0} (p q : A → Bool) (l : List A) → ((a : A) → p a ≡ q a) → any p l ≡ any q l
any-ext p q [] h = refl
any-ext p q (x ∷ l) h = ground (arith, h x, any-ext p q l h)

-- A chain of early returns.
returns_or :
    (a b c d e : Bool)
    → (if a then true else if b then true else if c then true else if d then true else e)
      ≡ (a || (b || (c || (d || e))))
returns_or a b c d e = ground arith

-- The texts of a customer that a search goes through, the names and roles in lower case.
module _ (to_lower_case : Text → Text) where
  abbrev pub asset_texts : ConfigAsset → List Text
  asset_texts a = a.ip ∷ elim a.role [ none ↦ [] | some role ↦ to_lower_case role ∷ [] ]

  abbrev pub port_texts : Option (List ℕ) → List Text
  port_texts none = []
  port_texts (some ports) = flat_map (λ p. to_decimal p ∷ []) ports

  abbrev pub service_texts : ConfigService → List Text
  service_texts s =
      to_lower_case s.name
      ∷ to_lower_case s.service_id
      ∷ (port_texts s.tcp_ports ++ (port_texts s.udp_ports ++ flat_map asset_texts s.assets))

  abbrev pub customer_texts : ConfigCustomer → List Text
  customer_texts c =
      to_lower_case c.customer_id
      ∷ to_lower_case c.name
      ∷ to_lower_case c.policy_profile
      ∷ (c.prefixes ++ flat_map service_texts c.services)

  module _ (q : Text) where
    abbrev has : Text → Bool
    has t = text_includes t q

    ports-texts :
        (ports : Option (List ℕ)) → ports_include to_lower_case q ports ≡ any has (port_texts ports)
    unfolding ports_include
    ports-texts none = refl
    ports-texts (some ports) =
        any-ext (λ p. has (to_decimal p)) (λ p. any has (to_decimal p ∷ [])) ports
          (λ p. ground arith)
        ∙ sym (any-flat_map has (λ p. to_decimal p ∷ []) ports)

    asset-texts :
        (a : ConfigAsset)
        → (has a.ip || role_includes to_lower_case q a.role) ≡ any has (asset_texts a)
    asset-texts a = by_role a.role
      where
        by_role :
            (role : Option Text)
            → (has a.ip || role_includes to_lower_case q role)
              ≡ any has (a.ip ∷ elim role [ none ↦ [] | some r ↦ to_lower_case r ∷ [] ])
        by_role none = refl
        by_role (some r) = ground arith

    service-texts :
        (s : ConfigService) → finds_service to_lower_case q s ≡ any has (service_texts s)
    unfolding finds_service
    service-texts s =
        let tcp = port_texts s.tcp_ports in
        let udp = port_texts s.udp_ports in
        let assets = flat_map asset_texts s.assets in
        returns_or (has (to_lower_case s.name)) (has (to_lower_case s.service_id))
          (ports_include to_lower_case q s.tcp_ports) (ports_include to_lower_case q s.udp_ports)
          (any (λ a. has a.ip || role_includes to_lower_case q a.role) s.assets)
        ∙ ors (ports-texts s.tcp_ports) (ports-texts s.udp_ports) (
            any-ext (λ a. has a.ip || role_includes to_lower_case q a.role)
              (λ a. any has (asset_texts a)) s.assets asset-texts
            ∙ sym (any-flat_map has asset_texts s.assets))
        ∙ ap (λ b. has (to_lower_case s.name) || (has (to_lower_case s.service_id) || b))
            (sym (
              any-append has tcp (udp ++ assets)
              ∙ ap (λ b. any has tcp || b) (any-append has udp assets)))
      where
        ors :
            {a b c a' b' c' : Bool}
            → a ≡ a'
            → b ≡ b'
            → c ≡ c'
            → (has (to_lower_case s.name) || (has (to_lower_case s.service_id) || (a || (b || c))))
              ≡ (has (to_lower_case s.name)
                  || (has (to_lower_case s.service_id) || (a' || (b' || c'))))
        ors e f g = rw (e, f, g) refl

    customer-texts :
        (c : ConfigCustomer) → finds_customer to_lower_case q c ≡ any has (customer_texts c)
    unfolding finds_customer
    customer-texts c =
        let services = flat_map service_texts c.services in
        returns_or (has (to_lower_case c.customer_id)) (has (to_lower_case c.name))
          (has (to_lower_case c.policy_profile)) (any has c.prefixes)
          (any (finds_service to_lower_case q) c.services)
        ∙ ap
            (λ b.
              has (to_lower_case c.customer_id)
              || (has (to_lower_case c.name) || (has (to_lower_case c.policy_profile) || b)))
            (ap (λ b. any has c.prefixes || b)
                (any-ext (finds_service to_lower_case q) (λ s. any has (service_texts s)) c.services
                    service-texts
                  ∙ sym (any-flat_map has service_texts c.services))
              ∙ sym (any-append has c.prefixes services))

  -- A blank search shows the whole inventory; any other one shows, in their order, exactly the customers
  -- of which one text has the search in lower case in it.
  pub filtered_lem :
      (customers : List ConfigCustomer) (search : Text)
      → filtered to_lower_case (some customers) search ≡ (
          if truthy (trim search)
          then keep
              (λ c. any (λ t. text_includes t (to_lower_case search)) (customer_texts c))
              customers
          else customers)
  unfolding filtered
  filtered_lem customers search =
      let q = to_lower_case search in
      ground (
        arith,
        keep-ext (finds_customer to_lower_case q)
            (λ c. any (λ t. text_includes t q) (customer_texts c)) customers (customer-texts q),
      )

-- The card is on the page.
abbrev pub IsOpen : Text → Cards → Bool → Type 0
IsOpen key cards state = card_of key cards ≡ some state

keyed :
    (before : Cards) (limit : Bool) (key : Text) (shown : List ConfigCustomer)
    → any (λ c. same c.customer_id key) shown ≡ true
    → card_of key (map (λ c. (c.customer_id, or_else (card_of c.customer_id before) limit)) shown)
      ≡ some (or_else (card_of key before) limit)
unfolding card_of
keyed before limit key [] h = ground arith
keyed before limit key (c ∷ l) h = elim (Bool-cases (same c.customer_id key)) [
  | inl e ↦
      rw e (ap (λ t. some (or_else (card_of t before) limit)) ((same_iff c.customer_id key).0 e))
  | inr e ↦ rw e (keyed before limit key l (ground arith))
]

-- Whatever is searched for, a card that stays on the page stays as it was, however few customers are
-- left, and a card that comes to the page is open exactly where three or fewer customers are shown.
pub render_cards_lem :
    (before : Cards) (shown : List ConfigCustomer) (key : Text)
    → any (λ c. same c.customer_id key) shown ≡ true
    → ((state : Bool) → IsOpen key before state → IsOpen key (render_cards before shown) state)
      × (card_of key before ≡ none → IsOpen key (render_cards before shown) (leb (length shown) 3))
unfolding render_cards
render_cards_lem before shown key h =
    let found = keyed before (leb (length shown) 3) key shown h in
    ((λ state e. found ∙ rw e refl), (λ e. found ∙ rw e refl))
