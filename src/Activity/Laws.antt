-- ===== src/Activity/Laws.antt =====
-- What the feed of frontend/components/dashboard/activity-feed-live.tsx shows, and in which order.
use prefixd.Base.{
  ℕ, zero, suc, ◌+◌, ◌≤◌, min, Bool, true, false, ◌||◌, Option, List, [], ◌∷◌, ◌++◌, map, take,
  length, length-take, length-map, length-append, if◌then◌else◌, or_else, In, arith, ◌≡◌, ◌↔◌, refl,
  sym, ap, ◌∙◌, subst,
}
use prefixd.Base.Text.{Text}
use prefixd.Table.{sort}
use prefixd.Table.Newest.{IsNewestFirst, at_time, newest_lem, length-sort}
use prefixd.Table.Audit.{AuditEntry}
use prefixd.Activity.{
  ActivityItem, FeedEvent, event_item, audit_item, pushed, compare_items, display_activities,
  Answer, failed, loading, no_activity, shown_items, activity_feed,
}

pub take_whole : {A : Type 0} (n : ℕ) (l : List A) → length l ≤ n → take n l ≡ l
take_whole zero [] h = refl
take_whole (suc n) [] h = refl
take_whole (suc n) (x ∷ l) h = ap (◌∷◌ x) (take_whole n l (omega arith))
take_whole zero (x ∷ l) h = absurd (omega arith)

module _ (time_of : Text → ℕ) (encode : Text → Text) (victim_ip_of : AuditEntry → Option Text) where
  length-pushed :
      (events : Option (List FeedEvent)) (audit : Option (List AuditEntry))
      → length (pushed time_of encode victim_ip_of events audit)
        ≡ min 5 (length (or_else events [])) + min 5 (length (or_else audit []))
  unfolding pushed
  length-pushed events audit =
      let first = take 5 (or_else events []) in
      let second = take 5 (or_else audit []) in
      omega (
        arith,
        length-append (map (event_item encode) first) (map (audit_item victim_ip_of) second),
        length-map (event_item encode) first,
        length-map (audit_item victim_ip_of) second,
        length-take 5 (or_else events []),
        length-take 5 (or_else audit []),
      )

  nothing_cut :
      (events : Option (List FeedEvent)) (audit : Option (List AuditEntry))
      → display_activities time_of encode victim_ip_of events audit
        ≡ sort
            (compare_items time_of encode victim_ip_of)
            (pushed time_of encode victim_ip_of events audit)
  unfolding display_activities
  nothing_cut events audit =
      let all = pushed time_of encode victim_ip_of events audit in
      let compare = compare_items time_of encode victim_ip_of in
      take_whole 10 (sort compare all)
        (omega (arith, length-sort compare all, length-pushed events audit))

  -- The feed shows exactly the first five events and the first five entries of the audit log, none of
  -- them cut off; no item is older than a later one; and items of one time stand in the order of the
  -- lists, events first.
  pub display_activities_lem :
      (events : Option (List FeedEvent)) (audit : Option (List AuditEntry))
      → let time : ActivityItem → ℕ = λ x. time_of x.timestamp in
        let arrived =
          map (event_item encode) (take 5 (or_else events []))
          ++ map (audit_item victim_ip_of) (take 5 (or_else audit [])) in
        let shown = display_activities time_of encode victim_ip_of events audit in
        IsNewestFirst time shown
        × ((x : ActivityItem) → In x shown ↔ In x arrived)
        × ((k : ActivityItem) → at_time time (time k) shown ≡ at_time time (time k) arrived)
  unfolding pushed
  display_activities_lem events audit =
      let time : ActivityItem → ℕ = λ x. time_of x.timestamp in
      let arrived = pushed time_of encode victim_ip_of events audit in
      subst
        (λ shown.
          IsNewestFirst time shown
          × ((x : ActivityItem) → In x shown ↔ In x arrived)
          × ((k : ActivityItem) → at_time time (time k) shown ≡ at_time time (time k) arrived))
        (sym (nothing_cut events audit)) (newest_lem time arrived)

  length_zero : {A : Type 0} (l : List A) → length l ≡ 0 → l ≡ []
  length_zero [] h = refl
  length_zero (x ∷ l) h = absurd (omega (arith, h))

  -- Neither list has an entry, or neither has arrived.
  abbrev pub IsBare : Option (List FeedEvent) → Option (List AuditEntry) → Type 0
  IsBare events audit = (or_else events [] ≡ []) × (or_else audit [] ≡ [])

  nothing_iff :
      (events : Option (List FeedEvent)) (audit : Option (List AuditEntry))
      → (display_activities time_of encode victim_ip_of events audit ≡ []) ↔ IsBare events audit
  nothing_iff events audit =
      let all = pushed time_of encode victim_ip_of events audit in
      let counted : length (display_activities time_of encode victim_ip_of events audit)
          ≡ min 5 (length (or_else events [])) + min 5 (length (or_else audit [])) =
        ap length (nothing_cut events audit)
        ∙ length-sort (compare_items time_of encode victim_ip_of) all
        ∙ length-pushed events audit in
      (
        λ e.
            let none_left = sym (ap length e) ∙ counted in
            (
              length_zero (or_else events []) (omega (arith, none_left)),
              length_zero (or_else audit []) (omega (arith, none_left)),
            ),
        λ (no_events, no_audit).
            length_zero (display_activities time_of encode victim_ip_of events audit)
              (omega (arith, counted, ap length no_events, ap length no_audit)),
      )

  by_state :
      (has_error is_loading : Bool) (l : List ActivityItem)
      → let shown = if has_error then failed else shown_items is_loading l in
        ((shown ≡ failed) ↔ (has_error ≡ true))
        × ((shown ≡ loading) ↔ ((has_error ≡ false) × (l ≡ []) × (is_loading ≡ true)))
        × ((shown ≡ no_activity) ↔ ((has_error ≡ false) × (l ≡ []) × (is_loading ≡ false)))
  by_state has_error is_loading [] = (ground arith, ground arith, ground arith)
  by_state true is_loading (x ∷ l) = (ground arith, ground arith, ground arith)
  by_state false true (x ∷ l) = (ground arith, ground arith, ground arith)
  by_state false false (x ∷ l) = (ground arith, ground arith, ground arith)

  -- The feed says that it failed exactly where one of the requests failed; otherwise that it is loading
  -- exactly where one of them is and there is nothing to show; and otherwise that there is no activity
  -- exactly where both lists are empty or have not arrived.
  pub activity_feed_lem :
      (events : Answer (List FeedEvent)) (audit : Answer (List AuditEntry))
      → let shown = activity_feed time_of encode victim_ip_of events audit in
        let has_error = events.has_error || audit.has_error in
        let is_loading = events.is_loading || audit.is_loading in
        let bare = IsBare events.data_received audit.data_received in
        ((shown ≡ failed) ↔ (has_error ≡ true))
        × ((shown ≡ loading) ↔ ((has_error ≡ false) × bare × (is_loading ≡ true)))
        × ((shown ≡ no_activity) ↔ ((has_error ≡ false) × bare × (is_loading ≡ false)))
  unfolding activity_feed
  activity_feed_lem events audit =
      let (fails, loads, rests) =
        by_state (events.has_error || audit.has_error) (events.is_loading || audit.is_loading) (
          display_activities time_of encode victim_ip_of events.data_received
            audit.data_received) in
      let bare = nothing_iff events.data_received audit.data_received in
      (
        fails,
        (
          λ e. let (fine, nothing, at_work) = loads.0 e in (fine, bare.0 nothing, at_work),
          λ (fine, nothing, at_work). loads.1 (fine, bare.1 nothing, at_work),
        ),
        (
          λ e. let (fine, nothing, at_rest) = rests.0 e in (fine, bare.0 nothing, at_rest),
          λ (fine, nothing, at_rest). rests.1 (fine, bare.1 nothing, at_rest),
        ),
      )
