-- ===== src/Feed/Lifetime.antt =====
-- One life of the provider of frontend/components/websocket-provider.tsx, from its mount on: at most
-- one socket and at most one retry.
use prefixd.Base.{
  ℕ, suc, ◌+◌, ◌≤◌, Bool, true, false, none, some, [], ◌∷◌, arith, if◌then◌else◌, ltb, Bool-cases,
  ◌≡◌, ◌≢◌, ◌⊎◌, refl, sym, ap, ◌∙◌, inl, inr, In,
}
use prefixd.Feed.{
  World, connecting, error, pending, live, closing, closed, Browser, opens, fails, shuts, fires,
  Browsing, here, next, initial, connect, on_open, on_close, on_error, on_timer, mark, ready,
  set_ready, clear, ref_is_open, delay_of,
}
use prefixd.Feed.Sockets.{ready-set_self, ready-set_ne, ready-close_self, same_number, is_closed}

-- The retry that is pending is the one that the provider can cancel, and no socket is held.
abbrev pub HasOneRetry : World → Type 0
HasOneRetry w =
    (t : ℕ) × (d : ℕ) × (w.timers ≡ (t, d) ∷ [])
    × (w.reconnect_timeout ≡ some t)
    × (w.ws_ref ≡ none)

pub record IsAlone (w : World) : Type 0 where
  -- Every socket that is not closed is the one that the provider holds.
  pub held : (i : ℕ) → ready i w.sockets ≢ closed → w.ws_ref ≡ some i
  pub unclosing : (i : ℕ) → ready i w.sockets ≢ closing
  pub fresh : (i : ℕ) → w.next_socket ≤ i → ready i w.sockets ≡ closed
  pub retry : (w.timers ≡ []) ⊎ HasOneRetry w

pub clear_self : (t d : ℕ) → clear t ((t, d) ∷ []) ≡ []
unfolding clear
clear_self t d = ground arith

-- The world in which a new socket has been created.
abbrev pub with_socket : World → World
with_socket w = record w {
  connection_state = connecting;
  ws_ref = some w.next_socket;
  sockets = (w.next_socket, pending) ∷ w.sockets;
  next_socket = suc w.next_socket;
}

pub connect_free :
    (created : Bool) (w : World)
    → w.ws_ref ≡ none
    → connect created w ≡ (if created then with_socket w else record w { connection_state = error })
unfolding connect
connect_free created w e =
    ap
      (λ r.
        if ref_is_open r w.sockets
        then w
        else if created
        then with_socket w
        else record w { connection_state = error })
      e

pub none_held : (w : World) → IsAlone w → w.ws_ref ≡ none → (i : ℕ) → ready i w.sockets ≢ closed → ⊥
none_held w v e i h = none_or_some (sym e ∙ v.held i h)
  where
    none_or_some : none ≡ some i → ⊥
    none_or_some p = cc

with_socket-IsAlone :
    (w : World) → IsAlone w → w.ws_ref ≡ none → w.timers ≡ [] → IsAlone (with_socket w)
unfolding ready
with_socket-IsAlone w v e q = record {
  held = λ i h. elim (same_number w.next_socket i) [
    | inl same ↦ ap some same
    | inr other ↦ absurd (none_held w v e i (λ c. h (ground arith)))
  ];
  unclosing = λ i h. elim (same_number w.next_socket i) [
    | inl same ↦ ground arith
    | inr other ↦ v.unclosing i (ground arith)
  ];
  fresh = λ i h. ground (arith, v.fresh i (omega arith));
  retry = inl q;
}

connect-IsAlone :
    (created : Bool) (w : World)
    → IsAlone w
    → w.ws_ref ≡ none
    → w.timers ≡ []
    → IsAlone (connect created w)
connect-IsAlone true w v e q = rw (connect_free true w e) (with_socket-IsAlone w v e q)
connect-IsAlone false w v e q =
    rw (connect_free false w e)
      (record { held = v.held; unclosing = v.unclosing; fresh = v.fresh; retry = inl q })

one_retry :
    (w : World)
    → IsAlone w
    → (t d : ℕ) → In {A = ℕ × ℕ} (t, d) w.timers
    → HasOneRetry w × (clear t w.timers ≡ [])
one_retry w v t d m = elim v.retry [
  | inl no_timer ↦ absurd (rw no_timer at m)
  | inr (u, d', only, cancel, free) ↦
      let found : In {A = ℕ × ℕ} (t, d) ((u, d') ∷ []) = rw only at m in
      ((u, d', only, cancel, free), ap (clear t) only ∙ cleared u d' found)
]
  where
    cleared : (u d' : ℕ) → In {A = ℕ × ℕ} (t, d) ((u, d') ∷ []) → clear t ((u, d') ∷ []) ≡ []
    cleared u d' (inl same) = unfold clear in ground arith
    cleared u d' (inr none_left) = absurd none_left

opened-IsAlone :
    (w : World) (i : ℕ)
    → IsAlone w
    → ready i w.sockets ≡ pending
    → IsAlone (on_open (mark i live w))
unfolding on_open
opened-IsAlone w i v p = record {
  held = λ j h. elim (same_number i j) [
    | inl same ↦ v.held j (λ c. ground arith)
    | inr other ↦ v.held j (λ c. h (ready-set_ne i j live w.sockets other ∙ c))
  ];
  unclosing = λ j h. elim (same_number i j) [
    | inl same ↦ ground (arith, ready-set_self i live w.sockets)
    | inr other ↦ v.unclosing j (sym (ready-set_ne i j live w.sockets other) ∙ h)
  ];
  fresh = λ j h. elim (same_number i j) [
    | inl same ↦ ground (arith, v.fresh j h)
    | inr other ↦ ready-set_ne i j live w.sockets other ∙ v.fresh j h
  ];
  retry = v.retry;
}

-- The only socket closes: none is left that is not closed.
all_closed :
    (w : World) (i : ℕ)
    → IsAlone w
    → ready i w.sockets ≢ closed
    → (j : ℕ) → ready j (set_ready i closed w.sockets) ≡ closed
all_closed w i v o j = elim (same_number i j) [
  | inl same ↦ rw (← same) (ready-close_self i w.sockets)
  | inr other ↦ elim (is_closed (ready j w.sockets)) [
    | inl c ↦ ready-set_ne i j closed w.sockets other ∙ c
    | inr n ↦ absurd (other (ground (arith, v.held i o, v.held j n)))
  ]
]

no_timer : (w : World) (i : ℕ) → IsAlone w → ready i w.sockets ≢ closed → w.timers ≡ []
no_timer w i v o = elim v.retry [
  | inl e ↦ e
  | inr (t, d, only, cancel, free) ↦ absurd (none_held w v free i o)
]

shut-IsAlone :
    (w : World) (i : ℕ)
    → IsAlone w
    → ready i w.sockets ≢ closed
    → IsAlone (on_close (mark i closed w))
unfolding on_close
shut-IsAlone w i v o = elim (Bool-cases (ltb w.reconnect_attempts 10)) [
  | inl more ↦ rw more (record {
    held = λ j h. absurd (h (all_closed w i v o j));
    unclosing = λ j h. ground (arith, all_closed w i v o j);
    fresh = λ j h. all_closed w i v o j;
    retry = inr (
      w.next_timer,
      delay_of (w.reconnect_attempts + 1),
      ap (◌∷◌ (w.next_timer, delay_of (w.reconnect_attempts + 1))) (no_timer w i v o),
      refl,
      refl,
    );
  })
  | inr done ↦ rw done (record {
    held = λ j h. absurd (h (all_closed w i v o j));
    unclosing = λ j h. ground (arith, all_closed w i v o j);
    fresh = λ j h. all_closed w i v o j;
    retry = inl (no_timer w i v o);
  })
]

fired-IsAlone :
    (w : World) (t d : ℕ) (created : Bool)
    → IsAlone w
    → In {A = ℕ × ℕ} (t, d) w.timers
    → IsAlone (on_timer t created w)
unfolding on_timer
fired-IsAlone w t d created v m =
    let ((u, d', only, cancel, free), cleared) = one_retry w v t d m in
    connect-IsAlone created (record w { timers = clear t w.timers })
      (record { held = v.held; unclosing = v.unclosing; fresh = v.fresh; retry = inl cleared }) free
      cleared

Browser-IsAlone : {w u : World} → Browser w u → IsAlone w → IsAlone u
Browser-IsAlone {w} (opens i p) v = opened-IsAlone w i v p
Browser-IsAlone {w} (fails i o) v =
    unfold on_error in
    record { held = v.held; unclosing = v.unclosing; fresh = v.fresh; retry = v.retry }
Browser-IsAlone {w} (shuts i o) v = shut-IsAlone w i v o
Browser-IsAlone {w} (fires t d created m) v = fired-IsAlone w t d created v m

Browsing-IsAlone : {w u : World} → Browsing w u → IsAlone w → IsAlone u
Browsing-IsAlone here v = v
Browsing-IsAlone (next b st) v = Browser-IsAlone st (Browsing-IsAlone b v)

initial-IsAlone : IsAlone initial
unfolding ready
initial-IsAlone = record {
  held = λ i h. absurd (h refl);
  unclosing = λ i h. cc;
  fresh = λ i h. refl;
  retry = inl refl;
}

-- From its mount on, whatever the browser does, the provider holds every socket that is not closed,
-- so there is one at most; at most one retry is pending, which `disconnect` can cancel, and none
-- while there is a socket.
pub mounted-IsAlone :
    (created : Bool) {u : World} → Browsing (connect created initial) u → IsAlone u
mounted-IsAlone created b =
    Browsing-IsAlone b (connect-IsAlone created initial initial-IsAlone refl refl)
