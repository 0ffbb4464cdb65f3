-- ===== src/History/Timeline.antt =====
-- The time line of frontend/app/(dashboard)/ip-history/page.tsx.
use prefixd.Base.{ℕ, some, ◌++◌, map, In, ◌≡◌, ◌↔◌}
use prefixd.Base.Text.{Text}
use prefixd.Table.Newest.{IsNewestFirst, at_time, newest_lem}
use prefixd.History.{TimelineEntry, event, mitigation, timestamp, History, timeline}

-- The time line has exactly the events and the mitigations of the address; no entry is older than a
-- later one; and the entries of one time stand in the order in which they arrived, events first.
pub timeline_lem :
    (time_of : Text → ℕ) (h : History)
    → let time : TimelineEntry → ℕ = λ x. time_of (timestamp x) in
      let arrived = map event h.events ++ map mitigation h.mitigations in
      let shown = timeline time_of (some h) in
      IsNewestFirst time shown
      × ((x : TimelineEntry) → In x shown ↔ In x arrived)
      × ((k : TimelineEntry) → at_time time (time k) shown ≡ at_time time (time k) arrived)
unfolding timeline
timeline_lem time_of h =
    newest_lem (λ x. time_of (timestamp x)) (map event h.events ++ map mitigation h.mitigations)
