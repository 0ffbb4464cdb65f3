-- ===== src/Inventory/Tests.antt =====
-- An inventory of one customer.
use prefixd.Base.{true, false, none, some, [], ◌∷◌, keep, any, if◌then◌else◌, ◌≡◌, refl}
use prefixd.Base.Text.{Text, codes, truthy}
use prefixd.Base.Trim.{trim}
use prefixd.Base.Decimal.{to_decimal}
use prefixd.Api.Types.{ConfigCustomer}
use prefixd.Table.{text_includes}
use prefixd.Inventory.{filtered, finds_customer, total_assets, toggle_card, render_cards}
use prefixd.Inventory.Laws.{filtered_lem, customer_texts}

abbrev lower : Text → Text
lower t = t

abbrev acme : ConfigCustomer
acme = record {
  customer_id = codes "acme";
  name = codes "acme inc";
  prefixes = codes "2001:DB8::/32" ∷ [];
  policy_profile = codes "strict";
  services =
      record {
        service_id = codes "dns";
        name = codes "resolver";
        assets = record { ip = codes "10.0.0.1"; role = some (codes "primary") } ∷ [];
        udp_ports = some (53 ∷ []);
        tcp_ports = none;
      }
      ∷ [];
}

filtered_lem_example : filtered lower (some (acme ∷ [])) (codes "53") ≡ (
    if truthy (trim (codes "53"))
    then keep
        (λ c. any (λ t. text_includes t (lower (codes "53"))) (customer_texts lower c))
        (acme ∷ [])
    else acme ∷ [])
filtered_lem_example = filtered_lem lower (acme ∷ []) (codes "53")

by_port : filtered lower (some (acme ∷ [])) (codes "53") ≡ acme ∷ []
unfolding filtered finds_customer trim to_decimal
by_port = refl

-- A blank around the search is searched for as well.
by_padded_port : filtered lower (some (acme ∷ [])) (codes " 53") ≡ []
unfolding filtered finds_customer trim to_decimal
by_padded_port = refl

one_asset : total_assets acme.services ≡ 1
unfolding total_assets
one_asset = refl

-- The card of four customers stays closed when it is the last one left.
stays_closed : render_cards ((codes "acme", false) ∷ []) (acme ∷ []) ≡ (codes "acme", false) ∷ []
unfolding render_cards
stays_closed = refl

opened_by_hand : toggle_card (codes "acme") ((codes "acme", false) ∷ []) ≡ (codes "acme", true) ∷ []
unfolding toggle_card
opened_by_hand = refl
