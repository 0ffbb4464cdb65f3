-- ===== src/Shortcuts.antt =====
-- The keyboard shortcuts of the dashboard, frontend/hooks/use-keyboard-shortcuts.ts: the handler of
-- "keydown" with its two refs, and the timeouts that it sets. The browser's timeouts are `timers`, by
-- their numbers, with the time at which each is due.
pub mod Prefix
pub mod Rerender
mod Tests
use prefixd.Base.{
  ℕ, suc, ◌+◌, Bool, true, false, not, ◌&&◌, ◌||◌, Option, none, some, List, [], ◌∷◌, if◌then◌else◌,
  ◌==◌, leb,
}
use prefixd.Base.Text.{Text, codes, same}

-- What the handler reads of a KeyboardEvent.
pub record KeyEvent : Type 0 where
  pub tag_name : Text
  pub is_content_editable : Bool
  pub meta_key : Bool
  pub ctrl_key : Bool
  pub key : Text

-- What the handler does besides its refs; the default of the browser is prevented with each.
pub data Action : Type 0 where
  on_command_palette : Action
  on_toggle_sidebar : Action
  on_toggle_help : Action
  push : Text → Action

pub record World : Type 0 where
  pub g_pressed : Bool
  pub g_timeout : Option ℕ
  pub timers : List (ℕ × ℕ)
  pub next_timer : ℕ

abbrev pub initial : World
initial = record { g_pressed = false; g_timeout = none; timers = []; next_timer = 1 }

abbrev pub is_typing : KeyEvent → Bool
is_typing e =
    same e.tag_name (codes "INPUT")
    || same e.tag_name (codes "TEXTAREA")
    || same e.tag_name (codes "SELECT")
    || e.is_content_editable

abbrev pub has_command : KeyEvent → Bool
has_command e = e.meta_key || e.ctrl_key

-- `clearTimeout(id)`.
unfoldable pub clear_timeout : ℕ → List (ℕ × ℕ) → List (ℕ × ℕ)
clear_timeout id [] = []
clear_timeout id ((i, due) ∷ l) =
    let rest = clear_timeout id l in if i == id then rest else (i, due) ∷ rest

-- `if (gTimeoutRef.current) clearTimeout(gTimeoutRef.current)`.
unfoldable pub clear_ref : World → List (ℕ × ℕ)
unfolding clear_timeout
clear_ref w = elim w.g_timeout [ none ↦ w.timers | some id ↦ clear_timeout id w.timers ]

unfoldable pub press_g : ℕ → World → World
unfolding clear_ref
press_g now w = record {
  g_pressed = true;
  g_timeout = some w.next_timer;
  timers = (w.next_timer, now + 1000) ∷ clear_ref w;
  next_timer = suc w.next_timer;
}

unfoldable pub release_g : World → World
unfolding clear_ref
release_g w = record w { g_pressed = false; g_timeout = none; timers = clear_ref w }

-- The switch over the second key.
unfoldable pub navigation : Text → List Action
navigation key =
    if same key (codes "o")
    then push (codes "/") ∷ []
    else if same key (codes "m")
    then push (codes "/mitigations") ∷ []
    else if same key (codes "e")
    then push (codes "/events") ∷ []
    else if same key (codes "a")
    then push (codes "/audit-log") ∷ []
    else if same key (codes "i")
    then push (codes "/inventory") ∷ []
    else if same key (codes "c")
    then push (codes "/config") ∷ []
    else if same key (codes "h")
    then push (codes "/ip-history") ∷ []
    else []

unfoldable pub handle_key_down : ℕ → KeyEvent → World → World × List Action
unfolding press_g release_g navigation
handle_key_down now e w =
    if is_typing e
    then (w, [])
    else if has_command e && same e.key (codes "k")
    then (w, on_command_palette ∷ [])
    else if has_command e && same e.key (codes "b")
    then (w, on_toggle_sidebar ∷ [])
    else if same e.key (codes "?") && not (has_command e)
    then (w, on_toggle_help ∷ [])
    else if same e.key (codes "n") && not (has_command e)
    then (w, push (codes "/mitigations?mitigate=true") ∷ [])
    else if same e.key (codes "g") && not (has_command e)
    then (press_g now w, [])
    else if w.g_pressed
    then (release_g w, navigation e.key)
    else (w, [])

-- The timeout with this number fires.
unfoldable pub on_timeout : ℕ → World → World
unfolding clear_timeout
on_timeout id w = record w {
  g_pressed = false;
  g_timeout = none;
  timers = clear_timeout id w.timers;
}

-- The timeouts of a list that are due fire, in their order.
unfoldable pub fire : ℕ → List (ℕ × ℕ) → World → World
unfolding on_timeout
fire now [] w = w
fire now ((id, due) ∷ l) w = fire now l (if leb due now then on_timeout id w else w)

unfoldable pub fire_due : ℕ → World → World
unfolding fire
fire_due now w = fire now w.timers w

-- The effect runs again because the handler is a new one: the clean-up of the old one, and then the
-- new one listens.
unfoldable pub rerun_effect : World → World
unfolding clear_ref
rerun_effect w = record w { timers = clear_ref w }

-- What the keys at these times do, while the effect does not run again.
unfoldable pub run : World → List (ℕ × KeyEvent) → List (List Action)
unfolding handle_key_down fire_due
run w [] = []
run w ((now, e) ∷ keys) =
    let (after, actions) = handle_key_down now e (fire_due now w) in actions ∷ run after keys
