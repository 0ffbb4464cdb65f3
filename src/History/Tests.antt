-- ===== src/History/Tests.antt =====
-- The history of an address on three entries.
use prefixd.Base.{ℕ, none, some, [], ◌∷◌, ◌++◌, map, length, In, ◌≡◌, ◌↔◌, refl}
use prefixd.Base.Text.{Text, codes}
use prefixd.Api.Types.{IpHistoryEvent}
use prefixd.History.{
  TimelineEntry, event, mitigation, timestamp, HistoryMitigation, History, timeline, mount,
  handle_search,
}
use prefixd.Table.Newest.{IsNewestFirst, at_time}
use prefixd.History.Timeline.{timeline_lem}

abbrev seen : Text → IpHistoryEvent
seen time = record {
  event_id = codes "e1";
  source = codes "detector";
  event_timestamp = time;
  ingested_at = time;
  vector = codes "udp_flood";
  bps = none;
  pps = none;
  confidence = none;
}

abbrev announced : Text → HistoryMitigation
announced time = record {
  mitigation_id = codes "m1";
  status = codes "active";
  action_type = codes "police";
  vector = codes "udp_flood";
  created_at = time;
  withdrawn_at = none;
  expires_at = time;
}

abbrev history : History
history = record {
  events = seen (codes "1") ∷ seen (codes "22") ∷ [];
  mitigations = announced (codes "22") ∷ [];
}

-- Times by the length of their texts.
newest_first :
    timeline length (some history)
    ≡ event (seen (codes "22"))
      ∷ mitigation (announced (codes "22"))
      ∷ event (seen (codes "1"))
      ∷ []
unfolding timeline
newest_first = refl

timeline_lem_test :
    let arrived = map event history.events ++ map mitigation history.mitigations in
    let shown = timeline length (some history) in
    let time : TimelineEntry → ℕ = λ x. length (timestamp x) in
    IsNewestFirst time shown
    × ((x : TimelineEntry) → In x shown ↔ In x arrived)
    × ((k : TimelineEntry) → at_time time (time k) shown ≡ at_time time (time k) arrived)
timeline_lem_test = timeline_lem length history

-- A blank search keeps the address that is shown.
blank_search : handle_search (λ t. t) (mount (some (codes " "))) ≡ (mount (some (codes " ")), none)
unfolding handle_search
blank_search = refl
