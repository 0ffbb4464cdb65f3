-- ===== src/Table/Tests.antt =====
-- The tables on a few rows.
use prefixd.Base.{
  ◌<◌, true, false, ℕ, Option, none, some, List, [], ◌∷◌, length, In, arith, ◌≡◌, ◌≢◌, ◌↔◌, refl,
}
use prefixd.Base.Text.{Text, codes}
use prefixd.Table.Settling.{after_render_lem}
use prefixd.Table.{desc, after_render, page_of, Sign, sign_of, total_pages, sort, text_includes}
use prefixd.Table.Pages.{pages_from, pages_from-total_pages}
use prefixd.Table.Sorting.{IsConsistent, IsSorted, sign_of-IsConsistent, along}
use prefixd.Table.Mitigations as Mitigations
use prefixd.Table.Mitigations.Laws as MitigationLaws
use prefixd.Table.Audit as Audit
use prefixd.Table.Audit.{AuditEntry}
use prefixd.Table.Audit.Laws as AuditLaws
use prefixd.Table.Events.{
  timestamp, Event, EventTable, initial, set_search_query, shows, filtered_events, paginated_events,
  pages, next_page,
}
use prefixd.Table.Events.Laws.{IsOrdered, IsAbove, IsWanted, filtered_events_lem, stale_page}

abbrev rows : List ℕ
rows = 3 ∷ 1 ∷ 2 ∷ []

pages_from-total_pages_example : pages_from 1 (total_pages (length rows)) rows ≡ rows
pages_from-total_pages_example = pages_from-total_pages rows

in_order : sort sign_of rows ≡ 1 ∷ 2 ∷ 3 ∷ []
unfolding sort
in_order = refl

-- A comparison of texts that stands for `localeCompare`.
abbrev by_length : Text → Text → Sign
by_length s t = sign_of (length s) (length t)

by_length-IsConsistent : IsConsistent by_length
by_length-IsConsistent = along (λ s. length s) sign_of sign_of-IsConsistent

abbrev event : Event
event = record {
  event_id = codes "e1";
  source = codes "fastnetmon";
  event_timestamp = codes "2026-01-01T00:00:00Z";
  ingested_at = codes "2026-01-01T00:00:01Z";
  external_event_id = none;
  victim_ip = codes "192.0.2.1";
  vector = codes "udp_flood";
  protocol = some 17;
  bps = some 1000;
  pps = none;
  top_dst_ports_json = codes "[53]";
  confidence = none;
}

filtered_events_lem_example :
    IsOrdered
      (IsAbove by_length length timestamp desc)
      (filtered_events by_length length (some (event ∷ [])) initial)
    × ((e : Event)
        → In e (filtered_events by_length length (some (event ∷ [])) initial)
          ↔ (In e (event ∷ []) × IsWanted initial e))
filtered_events_lem_example =
    filtered_events_lem by_length length (event ∷ []) initial by_length-IsConsistent

abbrev second_page : EventTable
second_page = record initial { current_page = 2 }

one_page :
    pages by_length length (some (event ∷ [])) (set_search_query (codes "192") second_page) ≡ 1
unfolding pages shows text_includes sort
one_page = refl

stale_page_test :
    let after = set_search_query (codes "192") second_page in
    let events : Option (List Event) = some (event ∷ []) in
    (paginated_events by_length length events after ≡ [])
    × (paginated_events by_length length events (next_page by_length length events after) ≢ [])
stale_page_test =
    stale_page by_length length (some (event ∷ [])) second_page (codes "192")
      (omega (arith, one_page)) (omega (arith, one_page))

abbrev mitigation : Mitigations.Mitigation
mitigation = record {
  mitigation_id = codes "m1";
  status = codes "active";
  customer_id = some (codes "acme");
  pop = codes "iad1";
  victim_ip = codes "192.0.2.1";
  vector = codes "udp_flood";
  action_type = codes "police";
  created_at = codes "2026-01-01T00:00:00Z";
  expires_at = codes "2026-01-01T00:02:00Z";
}

filtered_mitigations_lem_test :
    let table = Mitigations.mount none in
    let shown =
      Mitigations.filtered_mitigations by_length (λ t. t) length (some (mitigation ∷ [])) table in
    IsSorted (Mitigations.compare_mitigations by_length (λ t. t) length table) shown
    × ((m : Mitigations.Mitigation)
        → In m shown
          ↔ (In m (mitigation ∷ []) × MitigationLaws.IsWanted by_length (λ t. t) length table m))
filtered_mitigations_lem_test =
    MitigationLaws.filtered_mitigations_lem by_length (λ t. t) length (mitigation ∷ [])
      (Mitigations.mount none) by_length-IsConsistent

some_rows : rows ≢ []
some_rows e = ground arith

after_render_lem_example :
    let total = total_pages (length rows) in
    let settled = after_render false total (after_render true total 5) in
    (after_render false total settled ≡ settled)
    × (page_of settled rows ≢ [])
    × (total < 5 → settled ≡ total)
after_render_lem_example = after_render_lem rows true 5 (omega arith) some_rows

abbrev entry : AuditEntry
entry = record {
  audit_id = codes "a1";
  timestamp = codes "2026-01-01T00:00:00Z";
  actor_type = codes "operator";
  actor_id = some (codes "alice");
  action = codes "withdraw";
  target_type = some (codes "mitigation");
  target_id = some (codes "m1");
  details = codes "{}";
}

filtered_logs_lem_test :
    IsSorted
      (Audit.compare_entries by_length length Audit.initial)
      (Audit.filtered_logs by_length length (some (entry ∷ [])) Audit.initial)
    × ((e : AuditEntry)
        → In e (Audit.filtered_logs by_length length (some (entry ∷ [])) Audit.initial)
          ↔ (In e (entry ∷ []) × AuditLaws.IsWanted Audit.initial e))
filtered_logs_lem_test =
    AuditLaws.filtered_logs_lem by_length length (entry ∷ []) Audit.initial by_length-IsConsistent
