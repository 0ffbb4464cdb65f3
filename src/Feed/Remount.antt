-- ===== src/Feed/Remount.antt =====
-- A provider of frontend/components/websocket-provider.tsx that is unmounted and mounted again before
-- the browser has closed its socket.
use prefixd.Base.{ℕ, true, none, some, List, [], ◌∷◌, arith, ◌≡◌, ◌≢◌, refl, sym, ap, ◌∙◌}
use prefixd.Feed.{
  World, disconnected, ReadyState, pending, live, closing, closed, Browser, shuts, connect,
  on_close, mark, disconnect, ready, closes, close_ref,
}
use prefixd.Feed.Sockets.{ready-set_self, ready-set_ne}
use prefixd.Feed.Lifetime.{IsAlone, connect_free, with_socket}
use prefixd.Feed.Silence.{cleared_timers}

-- The world after the unmount and the second mount, and after the first socket's close event.
abbrev pub remounted : World → World
remounted w = connect true (disconnect w)

abbrev pub late_close : ℕ → World → World
late_close i w = on_close (mark i closed (remounted w))

remounted_lem : (w : World) → remounted w ≡ with_socket (disconnect w)
unfolding disconnect
remounted_lem w = connect_free true (disconnect w) refl

unheld : (w : World) (i : ℕ) → IsAlone w → ready i w.sockets ≢ closed → i ≢ w.next_socket
unheld w i v o = λ same. o (rw same (v.fresh w.next_socket (omega arith)))

closes-ne-closed : (r : ReadyState) → r ≢ closed → closes r ≢ closed
closes-ne-closed pending h e = cc
closes-ne-closed live h e = cc
closes-ne-closed closing h e = cc
closes-ne-closed closed h e = h refl

still_closing :
    (w : World) (i : ℕ)
    → w.ws_ref ≡ some i
    → ready i w.sockets ≢ closed
    → ready i (close_ref w.ws_ref w.sockets) ≢ closed
still_closing w i holds o e = closes-ne-closed (ready i w.sockets) o (
    sym (ready-set_self i (closes (ready i w.sockets)) w.sockets o)
    ∙ ap (λ r. ready i (close_ref r w.sockets)) (sym holds)
    ∙ e)

behind_new : (n i : ℕ) (l : List (ℕ × ReadyState)) → i ≢ n → ready i ((n, pending) ∷ l) ≡ ready i l
unfolding ready
behind_new n i l h = ground arith

new_one : (n : ℕ) (l : List (ℕ × ReadyState)) → ready n ((n, pending) ∷ l) ≡ pending
unfolding ready
new_one n l = ground arith

-- The stale close event: if the held socket `i` was connecting or open, the browser may close it
-- after the second mount; the provider then holds no socket, reports `disconnected` and schedules
-- no retry, although the new socket is still connecting, and the next unmount leaves it so.
pub late_close_lem :
    (w : World) (i : ℕ)
    → IsAlone w
    → w.ws_ref ≡ some i
    → ready i w.sockets ≢ closed
    → Browser (remounted w) (late_close i w)
      × ((late_close i w).ws_ref ≡ none)
      × ((late_close i w).connection_state ≡ disconnected)
      × ((late_close i w).timers ≡ [])
      × (ready w.next_socket (late_close i w).sockets ≡ pending)
      × (ready w.next_socket (disconnect (late_close i w)).sockets ≡ pending)
unfolding disconnect on_close
late_close_lem w i v holds o =
    let other = unheld w i v o in
    let l = close_ref w.ws_ref w.sockets in
    let left =
      ready-set_ne i w.next_socket closed ((w.next_socket, pending) ∷ l) other
      ∙ new_one w.next_socket l in
    rw (remounted_lem w) (
      shuts i (λ e. still_closing w i holds o (sym (behind_new w.next_socket i l other) ∙ e)),
      refl,
      refl,
      cleared_timers w v,
      left,
      left,
    )
