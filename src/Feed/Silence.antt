-- ===== src/Feed/Silence.antt =====
-- The provider of frontend/components/websocket-provider.tsx after its unmount.
use prefixd.Base.{
  ℕ, false, Option, none, some, List, [], arith, ltb, ◌≡◌, ◌≢◌, ◌⊎◌, refl, sym, ap, ◌∙◌, inl, inr,
  In, Option-cases,
}
use prefixd.Feed.{
  World, connected, ReadyState, pending, live, closing, closed, Browser, opens, fails, shuts, fires,
  Browsing, here, next, on_close, on_error, mark, disconnect, ready, set_ready, clear, clear_ref,
  close_ref, closes,
}
use prefixd.Feed.Sockets.{ready-set_self, ready-set_ne, ready-close_self, same_number, is_closed}
use prefixd.Feed.Lifetime.{IsAlone, none_held, clear_self}

-- After the unmount nothing can start again.
pub record IsQuiet (n : ℕ) (w : World) : Type 0 where
  pub attempts : w.reconnect_attempts ≡ 10
  pub no_timers : w.timers ≡ []
  pub none_waiting : (i : ℕ) → ready i w.sockets ≢ pending
  pub none_live : (i : ℕ) → ready i w.sockets ≢ live
  pub unconnected : w.connection_state ≢ connected
  pub sockets_made : w.next_socket ≡ n

closes_done : (r : ReadyState) → (closes r ≡ closing) ⊎ (closes r ≡ closed)
closes_done pending = inl refl
closes_done live = inl refl
closes_done closing = inl refl
closes_done closed = inr refl

set_closes :
    (i : ℕ) (l : List (ℕ × ReadyState))
    → (ready i (set_ready i (closes (ready i l)) l) ≡ closing)
      ⊎ (ready i (set_ready i (closes (ready i l)) l) ≡ closed)
set_closes i l = elim (is_closed (ready i l)) [
  | inl c ↦ inr (rw c (ready-close_self i l))
  | inr n ↦ elim (closes_done (ready i l)) [
    | inl e ↦ inl (ready-set_self i (closes (ready i l)) l n ∙ e)
    | inr e ↦ inr (ready-set_self i (closes (ready i l)) l n ∙ e)
  ]
]

-- After `disconnect` every socket is closing or closed.
close_ref_done :
    (w : World) (j : ℕ)
    → IsAlone w
    → (ready j (close_ref w.ws_ref w.sockets) ≡ closing)
      ⊎ (ready j (close_ref w.ws_ref w.sockets) ≡ closed)
close_ref_done w j v = elim (Option-cases w.ws_ref) [
  | inl free ↦ inr (ap (λ r. ready j (close_ref r w.sockets)) free ∙ all_done free)
  | inr (i, holds) ↦ elim (same_number i j) [
    | inl same ↦ rw (holds, ← same) (set_closes i w.sockets)
    | inr other ↦ inr (
        ap (λ r. ready j (close_ref r w.sockets)) holds
        ∙ ready-set_ne i j (closes (ready i w.sockets)) w.sockets other
        ∙ other_done i holds other)
  ]
]
  where
    all_done : w.ws_ref ≡ none → ready j w.sockets ≡ closed
    all_done free = elim (is_closed (ready j w.sockets)) [
      | inl c ↦ c
      | inr n ↦ absurd (none_held w v free j n)
    ]

    other_done : (i : ℕ) → w.ws_ref ≡ some i → i ≢ j → ready j w.sockets ≡ closed
    other_done i holds other = elim (is_closed (ready j w.sockets)) [
      | inl c ↦ c
      | inr n ↦ absurd (other (ground (arith, v.held j n)))
    ]

pub cleared_timers : (w : World) → IsAlone w → clear_ref w.reconnect_timeout w.timers ≡ []
cleared_timers w v = elim v.retry [
  | inl quiet ↦ ap (clear_ref w.reconnect_timeout) quiet ∙ clear_none w.reconnect_timeout
  | inr (t, d, only, cancel, free) ↦
      ap (λ r. clear_ref r w.timers) cancel ∙ ap (clear t) only ∙ clear_self t d
]
  where
    clear_none : (r : Option ℕ) → clear_ref r [] ≡ []
    clear_none none = refl
    clear_none (some t) = unfold clear in refl

disconnect-IsQuiet : (w : World) → IsAlone w → IsQuiet w.next_socket (disconnect w)
unfolding disconnect
disconnect-IsQuiet w v = record {
  attempts = refl;
  no_timers = cleared_timers w v;
  none_waiting = λ i h. ground (arith, close_ref_done w i v);
  none_live = λ i h. ground (arith, close_ref_done w i v);
  unconnected = λ h. cc;
  sockets_made = refl;
}

shut-IsQuiet : (n : ℕ) (w : World) (i : ℕ) → IsQuiet n w → IsQuiet n (on_close (mark i closed w))
unfolding on_close
shut-IsQuiet n w i v = rw (gives_up w v.attempts) (record {
  attempts = v.attempts;
  no_timers = v.no_timers;
  none_waiting = λ j h. elim (same_number i j) [
    | inl same ↦ ground (arith, ready-close_self i w.sockets)
    | inr other ↦ v.none_waiting j (sym (ready-set_ne i j closed w.sockets other) ∙ h)
  ];
  none_live = λ j h. elim (same_number i j) [
    | inl same ↦ ground (arith, ready-close_self i w.sockets)
    | inr other ↦ v.none_live j (sym (ready-set_ne i j closed w.sockets other) ∙ h)
  ];
  unconnected = λ h. cc;
  sockets_made = v.sockets_made;
})
  where
    gives_up : (w : World) → w.reconnect_attempts ≡ 10 → ltb w.reconnect_attempts 10 ≡ false
    gives_up w e = ground arith

Browser-IsQuiet : (n : ℕ) {w u : World} → Browser w u → IsQuiet n w → IsQuiet n u
Browser-IsQuiet n {w} (opens i p) v = absurd (v.none_waiting i p)
Browser-IsQuiet n {w} (fails i o) v =
    unfold on_error in
    record {
      attempts = v.attempts;
      no_timers = v.no_timers;
      none_waiting = v.none_waiting;
      none_live = v.none_live;
      unconnected = λ h. cc;
      sockets_made = v.sockets_made;
    }
Browser-IsQuiet n {w} (shuts i o) v = shut-IsQuiet n w i v
Browser-IsQuiet n {w} (fires t d created m) v = absurd (none_there (rw v.no_timers at m))
  where
    none_there : In {A = ℕ × ℕ} (t, d) [] → ⊥
    none_there h = h

-- `disconnect` of a provider that holds all its sockets is final: whatever the browser does
-- afterwards, no socket is created, no retry is pending and the state is never `connected`.
pub disconnect_final :
    {w u : World} → IsAlone w → Browsing (disconnect w) u → IsQuiet w.next_socket u
disconnect_final {w} v here = disconnect-IsQuiet w v
disconnect_final {w} v (next b st) = Browser-IsQuiet w.next_socket st (disconnect_final v b)
