-- ===== src/Activity/Tests.antt =====
-- The feed of two events and one entry, with times by the length of their texts.
use prefixd.Base.{
  ℕ, false, Option, none, some, List, [], ◌∷◌, ◌++◌, map, take, or_else, length, In, ◌≡◌, ◌↔◌, refl,
  true, ◌||◌,
}
use prefixd.Base.Text.{Text, codes}
use prefixd.Base.Decimal.{to_decimal}
use prefixd.Table.Newest.{IsNewestFirst, at_time}
use prefixd.Table.Audit.{AuditEntry}
use prefixd.Activity.{
  ActivityItem, FeedEvent, Answer, event_item, audit_item, display_activities, format_timestamp,
  activity_feed, failed, loading, no_activity,
}
use prefixd.Activity.Laws.{display_activities_lem, activity_feed_lem, IsBare}

abbrev encode : Text → Text
encode t = t

abbrev no_ip : AuditEntry → Option Text
no_ip e = none

abbrev seen : Text → FeedEvent
seen time = record {
  event_id = codes "1";
  ingested_at = time;
  vector = codes "udp_flood";
  source = codes "fastnetmon";
  victim_ip = codes "10.0.0.1";
}

abbrev entry : AuditEntry
entry = record {
  audit_id = codes "7";
  timestamp = codes "22";
  actor_type = codes "operator";
  actor_id = none;
  action = codes "config_reload_done";
  target_type = none;
  target_id = none;
  details = [];
}

abbrev events : List FeedEvent
events = seen (codes "1") ∷ seen (codes "22") ∷ []

display_activities_lem_example :
    let time : ActivityItem → ℕ = λ x. length x.timestamp in
    let arrived =
      map (event_item encode) (take 5 (or_else (some events) []))
      ++ map (audit_item no_ip) (take 5 (or_else (some (entry ∷ [])) [])) in
    let shown = display_activities length encode no_ip (some events) (some (entry ∷ [])) in
    IsNewestFirst time shown
    × ((x : ActivityItem) → In x shown ↔ In x arrived)
    × ((k : ActivityItem) → at_time time (time k) shown ≡ at_time time (time k) arrived)
display_activities_lem_example =
    display_activities_lem length encode no_ip (some events) (some (entry ∷ []))

in_order :
    map
      (λ x. x.description)
      (display_activities length encode no_ip (some events) (some (entry ∷ [])))
    ≡ codes "udp flood detected from fastnetmon"
      ∷ codes "config reload done"
      ∷ codes "udp flood detected from fastnetmon"
      ∷ []
unfolding display_activities event_item audit_item
in_order = refl

abbrev no_events : Answer (List FeedEvent)
no_events = record { data_received = none; has_error = false; is_loading = true }

abbrev no_entries : Answer (List AuditEntry)
no_entries = record { data_received = some []; has_error = false; is_loading = false }

activity_feed_lem_test :
    let shown = activity_feed length encode no_ip no_events no_entries in
    let has_error = no_events.has_error || no_entries.has_error in
    let is_loading = no_events.is_loading || no_entries.is_loading in
    let bare = IsBare length encode no_ip no_events.data_received no_entries.data_received in
    ((shown ≡ failed) ↔ (has_error ≡ true))
    × ((shown ≡ loading) ↔ ((has_error ≡ false) × bare × (is_loading ≡ true)))
    × ((shown ≡ no_activity) ↔ ((has_error ≡ false) × bare × (is_loading ≡ false)))
activity_feed_lem_test = activity_feed_lem length encode no_ip no_events no_entries

five_minutes : format_timestamp (λ t. []) 400000 100000 ≡ codes "5m ago"
unfolding format_timestamp to_decimal
five_minutes = refl
