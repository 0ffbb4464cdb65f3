-- ===== src/Feed.antt =====
-- The live feed: the provider of frontend/components/websocket-provider.tsx, with the browser's
-- sockets and timers as part of the state.
-- A socket is its number in the order of creation, with its `readyState`; a timer is its number with
-- its delay. `Step` is what the browser and the mounting pages can do next.
pub mod Message
pub mod Backoff
pub mod Sockets
pub mod Lifetime
pub mod Silence
pub mod Remount
mod Tests
use prefixd.Base.{
  ℕ, suc, ◌+◌, ◌*◌, min, Bool, true, false, not, Option, none, some, List, [], ◌∷◌, if◌then◌else◌,
  ◌==◌, ltb, ◌≡◌, ◌≢◌, In,
}

pub data ConnectionState : Type 0 where
  connecting connected disconnected error : ConnectionState

pub data ReadyState : Type 0 where
  pending live closing closed : ReadyState

abbrev pub reconnect_interval : ℕ
reconnect_interval = 3000

abbrev pub max_reconnect_attempts : ℕ
max_reconnect_attempts = 10

pub record World : Type 0 where
  -- The provider's state and refs.
  pub connection_state : ConnectionState
  pub ws_ref : Option ℕ
  pub reconnect_attempts : ℕ
  pub reconnect_timeout : Option ℕ
  -- The browser's.
  pub sockets : List (ℕ × ReadyState)
  pub timers : List (ℕ × ℕ)
  pub next_socket : ℕ
  pub next_timer : ℕ

-- Before the provider is mounted.
abbrev pub initial : World
initial = record {
  connection_state = disconnected;
  ws_ref = none;
  reconnect_attempts = 0;
  reconnect_timeout = none;
  sockets = [];
  timers = [];
  next_socket = 0;
  next_timer = 0;
}

-- `readyState` of a socket; one that was never created reads as closed.
unfoldable pub ready : ℕ → List (ℕ × ReadyState) → ReadyState
ready i [] = closed
ready i ((j, r) ∷ l) = if j == i then r else ready i l

unfoldable pub set_ready : ℕ → ReadyState → List (ℕ × ReadyState) → List (ℕ × ReadyState)
set_ready i r [] = []
set_ready i r ((j, q) ∷ l) = if j == i then (j, r) ∷ set_ready i r l else (j, q) ∷ set_ready i r l

unfoldable pub clear : ℕ → List (ℕ × ℕ) → List (ℕ × ℕ)
clear t [] = []
clear t ((u, d) ∷ l) = if u == t then clear t l else (u, d) ∷ clear t l

abbrev pub is_live : ReadyState → Bool
is_live live = true
is_live r = false

-- `wsRef.current?.readyState === WebSocket.OPEN`.
abbrev pub ref_is_open : Option ℕ → List (ℕ × ReadyState) → Bool
ref_is_open none l = false
ref_is_open (some i) l = is_live (ready i l)

-- `connect`; `created` is false where the constructor of `WebSocket` throws.
unfoldable pub connect : Bool → World → World
unfolding ready
connect created w =
    if ref_is_open w.ws_ref w.sockets
    then w
    else if created
    then record w {
      connection_state = connecting;
      ws_ref = some w.next_socket;
      sockets = (w.next_socket, pending) ∷ w.sockets;
      next_socket = suc w.next_socket;
    }
    else record w { connection_state = error }

unfoldable pub on_open : World → World
on_open w = record w { connection_state = connected; reconnect_attempts = 0 }

unfoldable pub delay_of : ℕ → ℕ
delay_of attempts = reconnect_interval * min attempts 5

unfoldable pub on_close : World → World
unfolding delay_of
on_close w =
    let gone = record w { connection_state = disconnected; ws_ref = none } in
    if ltb w.reconnect_attempts max_reconnect_attempts
    then record gone {
      reconnect_attempts = w.reconnect_attempts + 1;
      timers = (w.next_timer, delay_of (w.reconnect_attempts + 1)) ∷ w.timers;
      reconnect_timeout = some w.next_timer;
      next_timer = suc w.next_timer;
    }
    else gone

unfoldable pub on_error : World → World
on_error w = record w { connection_state = error }

abbrev pub clear_ref : Option ℕ → List (ℕ × ℕ) → List (ℕ × ℕ)
clear_ref none l = l
clear_ref (some t) l = clear t l

-- `ws?.close()`: a socket that is connecting or open starts to close.
abbrev pub closes : ReadyState → ReadyState
closes pending = closing
closes live = closing
closes closing = closing
closes closed = closed

abbrev pub close_ref : Option ℕ → List (ℕ × ReadyState) → List (ℕ × ReadyState)
close_ref none l = l
close_ref (some i) l = set_ready i (closes (ready i l)) l

unfoldable pub disconnect : World → World
unfolding ready set_ready clear
disconnect w = record w {
  timers = clear_ref w.reconnect_timeout w.timers;
  reconnect_timeout = none;
  reconnect_attempts = max_reconnect_attempts;
  sockets = close_ref w.ws_ref w.sockets;
  ws_ref = none;
  connection_state = disconnected;
}

-- The timeout's callback is `connect`.
unfoldable pub on_timer : ℕ → Bool → World → World
unfolding clear connect
on_timer t created w = connect created (record w { timers = clear t w.timers })

-- What the browser does with a socket, before it calls the handler.
abbrev pub mark : ℕ → ReadyState → World → World
mark i r w = record w { sockets = set_ready i r w.sockets }

-- The browser's next event: a connecting socket opens, a socket that is not closed fails or closes,
-- a pending timer fires.
pub data Browser (w : World) : World → Type 0 where
  opens : (i : ℕ) → ready i w.sockets ≡ pending → Browser w (on_open (mark i live w))
  fails : (i : ℕ) → ready i w.sockets ≢ closed → Browser w (on_error w)
  shuts : (i : ℕ) → ready i w.sockets ≢ closed → Browser w (on_close (mark i closed w))
  fires : (t d : ℕ) (created : Bool) → In (t, d) w.timers → Browser w (on_timer t created w)

pub data Browsing (w : World) : World → Type 0 where
  here : Browsing w w
  next : {u v : World} → Browsing w u → Browser u v → Browsing w v

-- The effect of the provider: `connect` on mount, `disconnect` on unmount.
pub data Step (w : World) : World → Type 0 where
  browser : {u : World} → Browser w u → Step w u
  mounts : (created : Bool) → Step w (connect created w)
  unmounts : Step w (disconnect w)

pub data Reach (w : World) : World → Type 0 where
  unmounted : Reach w w
  after : {u v : World} → Reach w u → Step u v → Reach w v
