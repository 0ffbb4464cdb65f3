-- ===== src/Activity.antt =====
-- The feed of recent activity on the overview, frontend/components/dashboard/activity-feed-live.tsx.
-- The reading and the local format of dates, the percent-encoding and the address that the details of
-- an entry name belong to the browser or are JSON and are arguments. Times are in milliseconds.
pub mod Laws
mod Tests
use prefixd.Base.{
  ℕ, ◌-◌, ◌/◌, Bool, true, false, ◌||◌, Option, none, some, List, [], ◌∷◌, ◌++◌, map, if◌then◌else◌,
  ltb, take, length, or_else, ◌==◌,
}
use prefixd.Base.Text.{Text, codes, same, truthy}
use prefixd.Base.Decimal.{to_decimal}
use prefixd.Table.{Sign, sign_of, sort}
use prefixd.Table.Audit.{AuditEntry}

pub data ActivityType : Type 0 where
  mitigation event operator system : ActivityType

pub record ActivityItem : Type 0 where
  pub id : Text
  pub kind : ActivityType
  pub timestamp : Text
  pub description : Text
  pub ip : Option Text
  pub href : Option Text

-- The fields of an event that the feed reads.
pub record FeedEvent : Type 0 where
  pub event_id : Text
  pub ingested_at : Text
  pub vector : Text
  pub source : Text
  pub victim_ip : Text

-- `formatTimestamp`.
unfoldable pub format_timestamp : (local_time : ℕ → Text) → (now date : ℕ) → Text
unfolding to_decimal
format_timestamp local_time now date =
    let diff_mins = (now - date) / 60000 in
    let diff_hours = (now - date) / 3600000 in
    if ltb diff_mins 1
    then codes "just now"
    else if ltb diff_mins 60
    then to_decimal diff_mins ++ codes "m ago"
    else if ltb diff_hours 24
    then to_decimal diff_hours ++ codes "h ago"
    else local_time date

-- `text.replace("_", " ")`, and `text.replace(/_/g, " ")`.
unfoldable pub replace_first : Text → Text
replace_first [] = []
replace_first (c ∷ t) = let rest = replace_first t in if c == b'_' then 32 ∷ t else c ∷ rest

unfoldable pub replace_all : Text → Text
replace_all t = map (λ c. if c == b'_' then 32 else c) t

unfoldable pub event_item : (encode : Text → Text) → FeedEvent → ActivityItem
unfolding replace_first
event_item encode e = record {
  id = codes "event-" ++ e.event_id;
  kind = event;
  timestamp = e.ingested_at;
  description = replace_first e.vector ++ (codes " detected from " ++ e.source);
  ip = some e.victim_ip;
  href = some (codes "/events?id=" ++ encode e.event_id);
}

abbrev pub actor_kind : Text → ActivityType
actor_kind actor =
    if same actor (codes "operator")
    then operator
    else if same actor (codes "system")
    then system
    else mitigation

-- The description of an entry by its target.
abbrev pub described : Text → Option Text → Text
described action none = action
described action (some target) =
    if truthy target
    then action
      ++ (codes " (" ++ ((if ltb 8 (length target) then take 8 target else target) ++ codes "...)"))
    else action

abbrev pub target_href : Option Text → Option Text → Option Text
target_href kind none = none
target_href kind (some target) =
    if same (or_else kind []) (codes "mitigation")
    then if truthy target then some (codes "/mitigations/" ++ target) else none
    else none

unfoldable pub audit_item : (victim_ip_of : AuditEntry → Option Text) → AuditEntry → ActivityItem
unfolding replace_all
audit_item victim_ip_of entry = record {
  id = codes "audit-" ++ entry.audit_id;
  kind = actor_kind entry.actor_type;
  timestamp = entry.timestamp;
  description = described (replace_all entry.action) entry.target_id;
  ip = victim_ip_of entry;
  href = target_href entry.target_type entry.target_id;
}

module _ (time_of : Text → ℕ) (encode : Text → Text) (victim_ip_of : AuditEntry → Option Text) where
  -- The items of both lists, in the order in which they are pushed; `none` has not arrived.
  unfoldable pub pushed : Option (List FeedEvent) → Option (List AuditEntry) → List ActivityItem
  unfolding event_item audit_item
  pushed events audit =
      map (event_item encode) (take 5 (or_else events []))
      ++ map (audit_item victim_ip_of) (take 5 (or_else audit []))

  abbrev pub compare_items : ActivityItem → ActivityItem → Sign
  compare_items a b = sign_of (time_of b.timestamp) (time_of a.timestamp)

  -- `displayActivities`.
  unfoldable pub display_activities :
      Option (List FeedEvent) → Option (List AuditEntry) → List ActivityItem
  unfolding pushed sort
  display_activities events audit = take 10 (sort compare_items (pushed events audit))

-- The answer of one of the two requests.
pub record Answer (A : Type 0) : Type 0 where
  pub data_received : Option A
  pub has_error : Bool
  pub is_loading : Bool

pub data Shown : Type 0 where
  failed loading no_activity : Shown
  items : List ActivityItem → Shown

abbrev pub shown_items : (is_loading : Bool) → List ActivityItem → Shown
shown_items true [] = loading
shown_items false [] = no_activity
shown_items is_loading (a ∷ l) = items (a ∷ l)

module _ (time_of : Text → ℕ) (encode : Text → Text) (victim_ip_of : AuditEntry → Option Text) where
  unfoldable pub activity_feed : Answer (List FeedEvent) → Answer (List AuditEntry) → Shown
  unfolding display_activities
  activity_feed events audit =
      if events.has_error || audit.has_error
      then failed
      else shown_items (events.is_loading || audit.is_loading)
          (display_activities time_of encode victim_ip_of events.data_received audit.data_received)
