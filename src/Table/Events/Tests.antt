-- ===== src/Table/Events/Tests.antt =====
-- The panel, the line below the table and the export for one event.
use prefixd.Base.{
  false, suc, ◌+◌, ◌-◌, ◌*◌, ◌≤◌, ◌<◌, true, none, some, [], ◌∷◌, map, In, ◌≡◌, ◌↔◌, ◌≢◌, refl,
  arith,
}
use prefixd.Base.Text.{Text, codes, truthy}
use prefixd.Base.Decimal.{to_decimal}
use prefixd.Base.Http.{Result, ok}
use prefixd.Base.Json.{Json, string}
use prefixd.Csv.{make_safe}
use prefixd.Csv.Reader.{read}
use prefixd.Table.{total_pages}
use prefixd.Table.Events.{Event, Fraction}
use prefixd.Table.Events.Panel.{
  shown_panel, panel, showing, export_events, event_headers, event_row, showing_lem,
  shown_panel_lem, read-export_events,
}
use prefixd.Table.Events.Details.{
  age_of, seconds_of, age_of_lem, format_relative_time, protocol_name, parse_ports, ports_line,
  ports_line_iff,
}

abbrev event : Event
event = record {
  event_id = codes "e1";
  source = codes "fastnetmon";
  event_timestamp = codes "2026-01-01T00:00:00Z";
  ingested_at = codes "2026-01-01T00:00:01Z";
  external_event_id = none;
  victim_ip = codes "192.0.2.1";
  vector = codes "udp_flood";
  protocol = some 17;
  bps = some 1000;
  pps = none;
  top_dst_ports_json = codes "[53]";
  confidence = none;
}

shown_panel_lem_test :
    ((e : Event)
      → shown_panel (some (event ∷ [])) (some (codes "e1")) ≡ panel e
      → In e (event ∷ []) × (e.event_id ≡ codes "e1"))
    × ((e : Event)
        → In e (event ∷ [])
        → e.event_id ≡ codes "e1"
        → codes "e1" ≢ []
        → (f : Event) × (shown_panel (some (event ∷ [])) (some (codes "e1")) ≡ panel f)
          × (f.event_id ≡ codes "e1"))
shown_panel_lem_test = shown_panel_lem (event ∷ []) (codes "e1")

second_page : 2 ≤ total_pages 25
unfolding total_pages
second_page = omega arith

showing_lem_test :
    let (first, last, all) = showing 2 25 in
    (first ≤ last) × (last ≤ all) × (last < first + 20) × (first ≡ (2 - 1) * 20 + 1)
showing_lem_test = showing_lem 2 25 (omega arith) second_page

-- After a search that leaves five rows on the second page.
stale_line : showing 2 5 ≡ (21, 5, 5)
unfolding showing
stale_line = refl

abbrev no_text : Fraction → Text
no_text c = []

read-export_events_test :
    read false (export_events no_text (event ∷ []))
    ≡ map (map make_safe) (event_headers ∷ map (event_row no_text) (event ∷ []))
read-export_events_test = read-export_events no_text (event ∷ [])

age_of_lem_test :
    let (n, unit) = age_of 7300 in (n * seconds_of unit ≤ 7300) × (7300 < suc n * seconds_of unit)
age_of_lem_test = age_of_lem 7300

two_hours : format_relative_time 7300000 0 ≡ codes "2h ago"
unfolding format_relative_time age_of to_decimal
two_hours = refl

abbrev parse_text : Text → Result Json
parse_text t = ok (string t)

ports_line_iff_test :
    (ports_line (λ v. []) (parse_ports parse_text (codes "53")) ≡ none)
    ↔ ((t : Text) × (parse_text (codes "53") ≡ ok (string t)) × (truthy t ≡ true))
ports_line_iff_test = ports_line_iff (λ v. []) parse_text (codes "53")

udp : protocol_name (some 17) ≡ codes "UDP (17)"
unfolding protocol_name
udp = refl
