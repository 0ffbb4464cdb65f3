-- ===== src/Feed/Message/Revalidation.antt =====
-- Which data hooks a message of the feed refreshes: the keys of frontend/hooks/use-api.ts against the
-- filters of frontend/components/websocket-provider.tsx.
use prefixd.Base.{
  ap, Bool, ◌∙◌, ◌⊎◌, true, false, ◌||◌, Option, none, some, List, [], ◌∷◌, ◌++◌, ◌≡◌, refl, arith,
  inl, inr,
}
use prefixd.Base.Text.{Text, codes}
use prefixd.Keys.{
  Key, Hook, stats, dashboard, mitigations, events, audit_log, mitigation, ip_history, key_of,
}
use prefixd.Feed.Message.{
  WsMessageType, mitigation_created, mitigation_updated, mitigation_expired, mitigation_withdrawn,
  event_ingested, resync_required, WsMessage, is_mitigation_message, type_name, daemon_type,
  compared, effects_of, effects, revalidated, toasts, resync, ingested, selects, Effect, mutate,
  family, exactly, notify,
}

-- The hooks that a message of the type is meant to refresh.
abbrev pub is_refreshed : WsMessageType → Hook → Bool
is_refreshed resync_required h = true
is_refreshed event_ingested (events params) = true
is_refreshed event_ingested stats = true
is_refreshed event_ingested h = false
is_refreshed mitigation_type (mitigations params) = true
is_refreshed mitigation_type stats = true
is_refreshed mitigation_type h = false

revalidated-append :
    (es fs : List Effect) (k : Key)
    → revalidated (es ++ fs) k ≡ (revalidated es k || revalidated fs k)
unfolding revalidated
revalidated-append [] fs k = refl
revalidated-append (mutate s ∷ es) fs k = ground (arith, revalidated-append es fs k)
revalidated-append (notify l t d ∷ es) fs k = revalidated-append es fs k

-- The notifications revalidate nothing.
toasts_silent : (t : WsMessageType) (m : WsMessage) (k : Key) → revalidated (toasts t m) k ≡ false
unfolding toasts revalidated
toasts_silent mitigation_created m k = ground arith
toasts_silent mitigation_updated m k = ground arith
toasts_silent mitigation_expired m k = ground arith
toasts_silent mitigation_withdrawn m k = ground arith
toasts_silent event_ingested m k = refl
toasts_silent resync_required m k = refl

-- The selectors that a message of the type uses.
abbrev selected : WsMessageType → Key → Bool
selected resync_required k = true
selected event_ingested k =
    selects (family (codes "events")) k || selects (exactly (codes "stats")) k
selected mitigation_type k =
    selects (family (codes "mitigations")) k || selects (exactly (codes "stats")) k

mitigation_effects :
    (t : WsMessageType) (m : WsMessage) (k : Key)
    → revalidated
        ((toasts t m
            ++ (mutate (family (codes "mitigations")) ∷ mutate (exactly (codes "stats")) ∷ []))
          ++ [])
        k
      ≡ (selects (family (codes "mitigations")) k || selects (exactly (codes "stats")) k)
unfolding revalidated
mitigation_effects t m k =
    let refreshing =
      mutate (family (codes "mitigations")) ∷ mutate (exactly (codes "stats")) ∷ [] in
    ground (
      arith,
      revalidated-append (toasts t m ++ refreshing) [] k,
      revalidated-append (toasts t m) refreshing k,
      toasts_silent t m k,
    )

effects_of-selected :
    (t : WsMessageType) (m : WsMessage) (k : Key) → revalidated (effects_of t m) k ≡ selected t k
unfolding effects_of resync ingested revalidated
effects_of-selected resync_required m k = refl
effects_of-selected event_ingested m k = ground arith
effects_of-selected mitigation_created m k = mitigation_effects mitigation_created m k
effects_of-selected mitigation_updated m k = mitigation_effects mitigation_updated m k
effects_of-selected mitigation_expired m k = mitigation_effects mitigation_expired m k
effects_of-selected mitigation_withdrawn m k = mitigation_effects mitigation_withdrawn m k

event_table :
    (h : Hook) (k : Key)
    → key_of h ≡ some k
    → selected event_ingested k ≡ is_refreshed event_ingested h
unfolding key_of
event_table (events none) k e = ground arith
event_table (events (some p)) k e = ground arith
event_table (mitigations none) k e = ground arith
event_table (mitigations (some p)) k e = ground arith
event_table (audit_log none) k e = ground arith
event_table (audit_log (some p)) k e = ground arith
event_table (mitigation none) k e = cc
event_table (mitigation (some id)) k e = ground arith
event_table (ip_history none) k e = cc
event_table (ip_history (some ip)) k e = ground arith
event_table h k e = ground arith

mitigation_table :
    (h : Hook) (k : Key)
    → key_of h ≡ some k
    → selected mitigation_created k ≡ is_refreshed mitigation_created h
unfolding key_of
mitigation_table (events none) k e = ground arith
mitigation_table (events (some p)) k e = ground arith
mitigation_table (mitigations none) k e = ground arith
mitigation_table (mitigations (some p)) k e = ground arith
mitigation_table (audit_log none) k e = ground arith
mitigation_table (audit_log (some p)) k e = ground arith
mitigation_table (mitigation none) k e = cc
mitigation_table (mitigation (some id)) k e = ground arith
mitigation_table (ip_history none) k e = cc
mitigation_table (ip_history (some ip)) k e = ground arith
mitigation_table h k e = ground arith

-- The four messages about a mitigation refresh the same hooks.
same_hooks :
    (h : Hook)
    → (is_refreshed mitigation_created h ≡ is_refreshed mitigation_updated h)
      × (is_refreshed mitigation_created h ≡ is_refreshed mitigation_expired h)
      × (is_refreshed mitigation_created h ≡ is_refreshed mitigation_withdrawn h)
same_hooks stats = (refl, refl, refl)
same_hooks h = (refl, refl, refl)

selected_table :
    (t : WsMessageType) (h : Hook) (k : Key) → key_of h ≡ some k → selected t k ≡ is_refreshed t h
selected_table resync_required h k e = refl
selected_table event_ingested h k e = event_table h k e
selected_table mitigation_created h k e = mitigation_table h k e
selected_table mitigation_updated h k e = mitigation_table h k e ∙ (same_hooks h).0
selected_table mitigation_expired h k e = mitigation_table h k e ∙ (same_hooks h).1
selected_table mitigation_withdrawn h k e = mitigation_table h k e ∙ (same_hooks h).2

compared_name : (t : WsMessageType) → compared (type_name t) ≡ some t
unfolding compared
compared_name mitigation_created = refl
compared_name mitigation_updated = refl
compared_name mitigation_expired = refl
compared_name mitigation_withdrawn = refl
compared_name event_ingested = refl
compared_name resync_required = refl

daemon_unknown : (t : WsMessageType) → compared (daemon_type t) ≡ none
unfolding compared
daemon_unknown mitigation_created = refl
daemon_unknown mitigation_updated = refl
daemon_unknown mitigation_expired = refl
daemon_unknown mitigation_withdrawn = refl
daemon_unknown event_ingested = refl
daemon_unknown resync_required = refl

-- A message whose type is written as use-websocket-types.ts declares it revalidates the key of a hook
-- exactly where the table above says so, whatever parameters the hook has: everything on a resync, the
-- lists of events and the statistics on an event, the lists of mitigations and the statistics on a
-- message about a mitigation, but not the page of one mitigation, the dashboard or the history of an
-- address. The same message with its type as the daemon writes it has no effect.
pub revalidated-effects :
    (m : WsMessage) (t : WsMessageType) (h : Hook) (k : Key)
    → m.type ≡ type_name t
    → key_of h ≡ some k
    → (revalidated (effects m) k ≡ is_refreshed t h)
      × (effects (record m { type = daemon_type t }) ≡ [])
unfolding effects
revalidated-effects m t h k named e = (
  ap (λ es. revalidated es k) (by_type m (some t) (ap compared named ∙ compared_name t))
      ∙ effects_of-selected t m k
      ∙ selected_table t h k e,
  by_type (record m { type = daemon_type t }) none (daemon_unknown t),
)
  where
    by_type :
        (n : WsMessage) (o : Option WsMessageType)
        → compared n.type ≡ o
        → effects n ≡ elim o [ none ↦ [] | some u ↦ effects_of u n ]
    by_type n o e = ap (λ v. elim v [ none ↦ [] | some u ↦ effects_of u n ]) e

-- The keys that are about mitigations and that no message about a mitigation revalidates: the page of
-- one mitigation, the dashboard's and the history's of an address.
abbrev pub IsStale : Hook → Type 0
IsStale h =
    ((id : Text) × (h ≡ mitigation (some id)))
    ⊎ ((h ≡ dashboard) ⊎ ((ip : Text) × (h ≡ ip_history (some ip))))

-- A message about a mitigation leaves the keys of the mitigation's page, of the dashboard and of an
-- address's history as they are.
pub stale_keys :
    (m : WsMessage) (t : WsMessageType) (h : Hook) (k : Key)
    → m.type ≡ type_name t
    → is_mitigation_message t ≡ true
    → IsStale h
    → key_of h ≡ some k
    → revalidated (effects m) k ≡ false
stale_keys m t h k named about stale e =
    (revalidated-effects m t h k named e).0 ∙ not_refreshed t h about stale
  where
    not_refreshed :
        (t : WsMessageType) (h : Hook)
        → is_mitigation_message t ≡ true
        → IsStale h
        → is_refreshed t h ≡ false
    not_refreshed t h about (inl (id, same)) = rw same (ground arith)
    not_refreshed t h about (inr (inl same)) = rw same (ground arith)
    not_refreshed t h about (inr (inr (ip, same))) = rw same (ground arith)
