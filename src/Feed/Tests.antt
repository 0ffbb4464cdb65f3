-- ===== src/Feed/Tests.antt =====
-- The live feed on concrete sequences of events (frontend/components/websocket-provider.tsx).
use prefixd.Base.{◌+◌, ◌-◌, min, true, none, some, [], ◌∷◌, ◌≡◌, refl, arith}
use prefixd.Base.Text.{codes}
use prefixd.Keys.{array, Hook, mitigations, key_of}
use prefixd.Feed.{
  World, live, initial, connect, on_open, disconnect, mark, ready, set_ready, opens, Browsing, here,
  next, mounts, unmounts, unmounted, after, clear,
}
use prefixd.Feed.Backoff.{IsBounded, Reach-IsBounded, failed_attempts, failed_attempts_lem}
use prefixd.Feed.Lifetime.{IsAlone, mounted-IsAlone}
use prefixd.Feed.Silence.{IsQuiet, disconnect_final}
use prefixd.Feed.Remount.{late_close, late_close_lem}
use prefixd.Feed.Message.{
  WsMessage, mitigation_created, effects, revalidated, notify, mutate, family, exactly, failure,
}
use prefixd.Feed.Message.Revalidation.{is_refreshed, revalidated-effects}

-- Mounted; the first socket has opened.
abbrev opened : World
opened = on_open (mark 0 live (connect true initial))

opened-Browsing : Browsing (connect true initial) opened
unfolding connect ready
opened-Browsing = next here (opens 0 refl)

ten_attempts : (failed_attempts 12 (connect true initial)).next_socket ≡ 11
unfolding failed_attempts connect clear
ten_attempts = refl

Reach-IsBounded_example : IsBounded (disconnect (connect true initial))
Reach-IsBounded_example = Reach-IsBounded (after (after unmounted (mounts true)) unmounts)

failed_attempts_lem_example : (failed_attempts 12 initial).next_socket ≡ 0 + min 12 (10 - 0)
failed_attempts_lem_example = (failed_attempts_lem 12 initial refl (omega arith)).0

mounted-IsAlone_example : IsAlone opened
mounted-IsAlone_example = mounted-IsAlone true opened-Browsing

disconnect_final_example : IsQuiet opened.next_socket (disconnect opened)
disconnect_final_example = disconnect_final mounted-IsAlone_example here

late_close_lem_example : (late_close 0 opened).ws_ref ≡ none
unfolding connect ready on_open set_ready
late_close_lem_example = (late_close_lem opened 0 mounted-IsAlone_example refl (λ e. cc)).1

abbrev created : WsMessage
created = record {
  type = codes "MitigationCreated";
  mitigation = some (record {
    mitigation_id = codes "m-1";
    status = codes "active";
    victim_ip = codes "192.0.2.1";
    vector = codes "udp_flood";
    action_type = codes "police";
  });
  mitigation_id = none;
  reason = none;
}

created_notified :
    effects created
    ≡ notify failure
        (codes "Mitigation Created: 192.0.2.1")
        (some (codes "udp_flood • Action: police"))
      ∷ mutate (family (codes "mitigations"))
      ∷ mutate (exactly (codes "stats"))
      ∷ []
unfolding effects
created_notified = refl

abbrev listed : Hook
listed = mitigations (some (codes "{}"))

revalidated-effects_example :
    (revalidated (effects created) (array (codes "mitigations" ∷ codes "{}" ∷ []))
      ≡ is_refreshed mitigation_created listed)
    × (effects (record created { type = codes "mitigation_created" }) ≡ [])
unfolding key_of
revalidated-effects_example =
    revalidated-effects created mitigation_created listed
      (array (codes "mitigations" ∷ codes "{}" ∷ [])) refl refl
