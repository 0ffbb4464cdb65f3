-- ===== src/Palette/Tests.antt =====
-- The palette on small searches.
use prefixd.Base.{true, false, Option, none, some, [], ◌∷◌, drop, In, inl, inr, arith, ◌≡◌, refl}
use prefixd.Base.Text.{Text, codes}
use prefixd.Table.Mitigations.{Mitigation}
use prefixd.Shortcuts.{KeyEvent, push, initial, run}
use prefixd.Palette.Laws.{after_g, run-hinted}
use prefixd.Table.Events.{Event}
use prefixd.Activity.{FeedEvent, event_item}
use prefixd.Detail.Rule.{RuleShown, linked_events, event_hrefs}
use prefixd.Palette.Links.{Opens, links_lem}
use prefixd.Table.Events.Panel.{Selection, shown_panel}
use prefixd.Palette.{event_href, after_link, filtered_mitigations, mitigations_page, mitigate_now}

abbrev announced : Text → Mitigation
announced ip = record {
  mitigation_id = codes "m1";
  status = codes "active";
  customer_id = none;
  pop = codes "iad1";
  victim_ip = ip;
  vector = codes "udp_flood";
  action_type = codes "police";
  created_at = codes "2026-01-01T00:00:00Z";
  expires_at = codes "2026-01-01T00:02:00Z";
}

by_address :
    filtered_mitigations
      (λ t. t)
      (some (announced (codes "192.0.2.1") ∷ announced (codes "198.51.100.7") ∷ []))
      (codes "198")
    ≡ announced (codes "198.51.100.7") ∷ []
unfolding filtered_mitigations
by_address = refl

dialog_open : (mitigations_page mitigate_now).1 ≡ true
unfolding mitigations_page
dialog_open = refl

abbrev on_body : Text → KeyEvent
on_body key = record {
  tag_name = codes "BODY";
  is_content_editable = false;
  meta_key = false;
  ctrl_key = false;
  key = key;
}

run-hinted_example :
    run initial ((0, on_body (codes "g")) ∷ (500, on_body (codes "m")) ∷ [])
    ≡ [] ∷ after_g (codes "m") ∷ []
run-hinted_example =
    run-hinted 0 500 (on_body (codes "g")) (on_body (codes "m")) (refl, refl) refl (refl, refl)
      (omega arith)

leads_there : after_g (codes "m") ≡ push (codes "/mitigations") ∷ []
leads_there = refl

abbrev loaded_event : Event
loaded_event = record {
  event_id = codes "e1";
  source = codes "detector";
  event_timestamp = codes "1";
  ingested_at = codes "2";
  external_event_id = none;
  victim_ip = codes "203.0.113.10";
  vector = codes "udp_flood";
  protocol = some 17;
  bps = none;
  pps = none;
  top_dst_ports_json = codes "[]";
  confidence = none;
}

abbrev fed : FeedEvent
fed = record {
  event_id = codes "e1";
  ingested_at = codes "2";
  vector = codes "udp_flood";
  source = codes "detector";
  victim_ip = codes "203.0.113.10";
}

abbrev prolonged : RuleShown
prolonged = record {
  victim_ip = codes "203.0.113.10";
  vector = codes "udp_flood";
  action_type = codes "discard";
  rate_bps = none;
  dst_ports = [];
  created_at = codes "1";
  updated_at = codes "1";
  expires_at = codes "9";
  withdrawn_at = none;
  triggering_event_id = codes "e0";
  last_event_id = codes "e1";
}

-- What follows the first eleven characters of an address.
abbrev after_prefix : Text → Text → Option Text
after_prefix address name = some (drop 11 address)

is_linked : In (codes "e1") (linked_events prolonged)
unfolding linked_events
is_linked = inr (inl refl)

links_lem_example :
    Opens (λ t. t) after_prefix (loaded_event ∷ []) (codes "e1") (event_href (λ t. t) loaded_event)
    × ((address : Text) × ((event_item (λ t. t) fed).href ≡ some address)
        × Opens (λ t. t) after_prefix (loaded_event ∷ []) (codes "e1") address)
    × ((address : Text) × In address (event_hrefs (λ t. t) prolonged)
        × Opens (λ t. t) after_prefix (loaded_event ∷ []) (codes "e1") address)
    × ((selected : Selection) (address : Text)
        → shown_panel (some (loaded_event ∷ [])) (after_link (some selected) (after_prefix address))
          ≡ shown_panel (some (loaded_event ∷ [])) selected)
links_lem_example =
    links_lem (λ t. t) after_prefix (loaded_event ∷ []) loaded_event fed prolonged (inl refl)
      (λ e. ground arith) refl is_linked (λ id. refl)
