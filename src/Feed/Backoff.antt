-- ===== src/Feed/Backoff.antt =====
-- The retries of frontend/components/websocket-provider.tsx: how many there are, and how long each
-- waits.
use prefixd.Base.{
  ℕ, zero, suc, ◌+◌, ◌-◌, ◌≤◌, ◌<◌, min, Bool, true, Option, none, some, List, [], ◌∷◌, All, arith,
  ltb, Bool-cases, ◌≡◌, inl, inr, ltb_lt, ltb_ge,
}
use prefixd.Feed.{
  World, opens, fails, shuts, fires, Step, browser, mounts, unmounts, Reach, unmounted, after,
  initial, connect, on_open, on_close, on_error, on_timer, disconnect, clear, clear_ref,
  ref_is_open,
}

abbrev pub IsDelay : ℕ × ℕ → Type 0
IsDelay t = (3000 ≤ t.1) × (t.1 ≤ 15000)

pub record IsBounded (w : World) : Type 0 where
  pub attempts : w.reconnect_attempts ≤ 10
  pub delays : All IsDelay w.timers

All-clear : (t : ℕ) (l : List (ℕ × ℕ)) → All IsDelay l → All IsDelay (clear t l)
unfolding clear
All-clear t [] h = tt
All-clear t ((u, d) ∷ l) h = ground (arith, All-clear t l h.1)

connect-IsBounded : (created : Bool) (w : World) → IsBounded w → IsBounded (connect created w)
unfolding connect
connect-IsBounded created w v = elim (Bool-cases (ref_is_open w.ws_ref w.sockets)) [
  | inl e ↦ rw e v
  | inr e ↦ rw e (elim (Bool-cases created) [
    | inl c ↦ rw c (record { attempts = v.attempts; delays = v.delays })
    | inr c ↦ rw c (record { attempts = v.attempts; delays = v.delays })
  ])
]

on_close-IsBounded : (w : World) → IsBounded w → IsBounded (on_close w)
unfolding on_close
on_close-IsBounded w v = elim (Bool-cases (ltb w.reconnect_attempts 10)) [
  | inl e ↦
      rw e (record { attempts = ground arith; delays = ((omega arith, omega arith), v.delays) })
  | inr e ↦ rw e (record { attempts = v.attempts; delays = v.delays })
]

disconnect-IsBounded : (w : World) → IsBounded w → IsBounded (disconnect w)
unfolding disconnect
disconnect-IsBounded w v = record {
  attempts = omega arith;
  delays = cleared w.reconnect_timeout w.timers v.delays;
}
  where
    cleared : (t : Option ℕ) (l : List (ℕ × ℕ)) → All IsDelay l → All IsDelay (clear_ref t l)
    cleared none l h = h
    cleared (some t) l h = All-clear t l h

Step-IsBounded : {w u : World} → Step w u → IsBounded w → IsBounded u
unfolding on_open on_error on_timer
Step-IsBounded {w} (browser (opens i h)) v = record { attempts = omega arith; delays = v.delays }
Step-IsBounded {w} (browser (fails i h)) v = record { attempts = v.attempts; delays = v.delays }
Step-IsBounded {w} (browser (shuts i h)) v =
    on_close-IsBounded _ (record { attempts = v.attempts; delays = v.delays })
Step-IsBounded {w} (browser (fires t d created h)) v =
    connect-IsBounded created (record w { timers = clear t w.timers })
      (record { attempts = v.attempts; delays = All-clear t w.timers v.delays })
Step-IsBounded {w} (mounts created) v = connect-IsBounded created w v
Step-IsBounded {w} unmounts v = disconnect-IsBounded w v

-- Whatever the browser does and however often the provider is mounted and unmounted, at most ten
-- attempts are counted, and every pending retry waits between 3 and 15 seconds.
pub Reach-IsBounded : {w : World} → Reach initial w → IsBounded w
Reach-IsBounded unmounted = record { attempts = omega arith; delays = tt }
Reach-IsBounded (after r st) = Step-IsBounded st (Reach-IsBounded r)

-- A socket closes without having opened; the retry that this schedules, if any, fires and creates
-- the next socket.
unfoldable pub failed_attempt : World → World
unfolding on_close on_timer
failed_attempt w = let c = on_close w in elim c.timers [ [] ↦ c | (t, d) ∷ l ↦ on_timer t true c ]

unfoldable pub failed_attempts : ℕ → World → World
unfolding failed_attempt
failed_attempts zero w = w
failed_attempts (suc n) w = failed_attempts n (failed_attempt w)

retried :
    (w : World)
    → w.timers ≡ []
    → w.reconnect_attempts < 10
    → ((failed_attempt w).next_socket ≡ suc w.next_socket)
      × ((failed_attempt w).reconnect_attempts ≡ w.reconnect_attempts + 1)
      × ((failed_attempt w).timers ≡ [])
unfolding failed_attempt
retried w e h = ground arith

given_up :
    (w : World)
    → w.timers ≡ []
    → 10 ≤ w.reconnect_attempts
    → ((failed_attempt w).next_socket ≡ w.next_socket)
      × ((failed_attempt w).reconnect_attempts ≡ w.reconnect_attempts)
      × ((failed_attempt w).timers ≡ [])
unfolding failed_attempt
given_up w e h = ground arith

-- With no retry pending, `n` attempts in a row that fail create one socket each until ten attempts
-- have been counted since the last success, and then no more.
pub failed_attempts_lem :
    (n : ℕ) (w : World)
    → w.timers ≡ []
    → w.reconnect_attempts ≤ 10
    → ((failed_attempts n w).next_socket ≡ w.next_socket + min n (10 - w.reconnect_attempts))
      × ((failed_attempts n w).timers ≡ [])
unfolding failed_attempts
failed_attempts_lem zero w e h = (omega arith, e)
failed_attempts_lem (suc n) w e h = elim (Bool-cases (ltb w.reconnect_attempts 10)) [
  | inl more ↦
      let (created, counted, quiet) = retried w e (ground arith) in
      let (total, none_left) =
        failed_attempts_lem n (failed_attempt w) quiet (omega (arith, ltb_lt _ _ more)) in
      (omega (arith, ltb_lt _ _ more), none_left)
  | inr done ↦
      let (created, counted, quiet) = given_up w e (ground arith) in
      let (total, none_left) = failed_attempts_lem n (failed_attempt w) quiet (omega arith) in
      (omega (arith, ltb_ge _ _ done), none_left)
]
