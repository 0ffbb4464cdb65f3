-- ===== src/Shortcuts/Prefix.antt =====
-- The two-key navigation of frontend/hooks/use-keyboard-shortcuts.ts against its description: the time
-- of the last "g" that still counts.
use prefixd.Base.{
  ℕ, suc, ◌+◌, true, false, Option, none, some, List, [], ◌∷◌, if◌then◌else◌, leb, arith, ◌≡◌, refl,
  Bool-cases, inl, inr,
}
use prefixd.Base.Text.{codes, same}
use prefixd.Shortcuts.{
  KeyEvent, Action, on_command_palette, on_toggle_sidebar, on_toggle_help, push, World, initial,
  is_typing, has_command, clear_timeout, clear_ref, press_g, release_g, navigation, handle_key_down,
  on_timeout, fire, fire_due, run,
}

pub data Meaning : Type 0 where
  -- Typed into a field.
  text : Meaning
  -- A shortcut of one key.
  direct : Action → Meaning
  prefix : Meaning
  -- Any other key, which may be the second one of a navigation.
  second : Meaning

-- What a key means, whatever came before it.
unfoldable pub meaning : KeyEvent → Meaning
meaning e =
    if is_typing e
    then text
    else if has_command e
    then (if same e.key (codes "k")
        then direct on_command_palette
        else if same e.key (codes "b")
        then direct on_toggle_sidebar
        else second)
    else if same e.key (codes "?")
    then direct on_toggle_help
    else if same e.key (codes "n")
    then direct (push (codes "/mitigations?mitigate=true"))
    else if same e.key (codes "g")
    then prefix
    else second

-- A prefix counts for a second.
unfoldable pub counting : ℕ → Option ℕ → Option ℕ
counting now none = none
counting now (some pressed) = if leb (pressed + 1000) now then none else some pressed

abbrev pub after_meaning : ℕ → KeyEvent → Meaning → Option ℕ → Option ℕ × List Action
after_meaning now e text pressed = (pressed, [])
after_meaning now e (direct a) pressed = (pressed, a ∷ [])
after_meaning now e prefix pressed = (some now, [])
after_meaning now e second none = (none, [])
after_meaning now e second (some t) = (none, navigation e.key)

-- A key after the last prefix that counts: the prefix that counts then, and what is done.
unfoldable pub after_key : ℕ → KeyEvent → Option ℕ → Option ℕ × List Action
after_key now e pressed = after_meaning now e (meaning e) pressed

unfoldable pub described : Option ℕ → List (ℕ × KeyEvent) → List (List Action)
unfolding counting after_key
described pressed [] = []
described pressed ((now, e) ∷ keys) =
    let (after, actions) = after_key now e (counting now pressed) in actions ∷ described after keys

-- The state of the handler when this prefix counts.
abbrev pub state : ℕ → Option ℕ → World
state id none = record { g_pressed = false; g_timeout = none; timers = []; next_timer = suc id }
state id (some t) = record {
  g_pressed = true;
  g_timeout = some id;
  timers = (id, t + 1000) ∷ [];
  next_timer = suc id;
}

pub state_fire :
    (now id : ℕ) (pressed : Option ℕ)
    → fire_due now (state id pressed) ≡ state id (counting now pressed)
unfolding fire_due counting fire on_timeout clear_timeout
state_fire now id none = refl
state_fire now id (some t) = elim (Bool-cases (leb (t + 1000) now)) [
  | inl e ↦ rw e (ground arith)
  | inr e ↦ rw e refl
]

-- The number of the timeout after a key: a prefix sets a new one.
abbrev pub id_after : Meaning → ℕ → ℕ
id_after prefix id = suc id
id_after _ id = id

unfoldable pub next_id : KeyEvent → ℕ → ℕ
next_id e id = id_after (meaning e) id

-- The handler by what the key means.
abbrev pub handle_meaning : ℕ → KeyEvent → Meaning → World → World × List Action
handle_meaning now e text w = (w, [])
handle_meaning now e (direct a) w = (w, a ∷ [])
handle_meaning now e prefix w = (press_g now w, [])
handle_meaning now e second w = if w.g_pressed then (release_g w, navigation e.key) else (w, [])

pub handled :
    (now : ℕ) (e : KeyEvent) (w : World)
    → handle_key_down now e w ≡ handle_meaning now e (meaning e) w
unfolding handle_key_down meaning
handled now e w = elim (Bool-cases (is_typing e)) [
  | inl t ↦ rw t refl
  | inr t ↦ elim (Bool-cases (has_command e)) [
    | inl c ↦ rw (t, c) (ground arith)
    | inr c ↦ rw (t, c) (ground arith)
  ]
]

pub state_key :
    (now id : ℕ) (e : KeyEvent) (pressed : Option ℕ)
    → handle_key_down now e (state id pressed)
      ≡ (state (next_id e id) (after_key now e pressed).0, (after_key now e pressed).1)
unfolding after_key press_g release_g clear_ref clear_timeout next_id
state_key now id e pressed = rw (handled now e (state id pressed)) (by_meaning (meaning e) pressed)
  where
    by_meaning :
        (m : Meaning) (o : Option ℕ)
        → handle_meaning now e m (state id o)
          ≡ (state (id_after m id) (after_meaning now e m o).0, (after_meaning now e m o).1)
    by_meaning text o = refl
    by_meaning (direct a) o = refl
    by_meaning prefix none = refl
    by_meaning prefix (some p) = ground arith
    by_meaning second none = refl
    by_meaning second (some p) = ground arith

pub run-state :
    (id : ℕ) (pressed : Option ℕ) (keys : List (ℕ × KeyEvent))
    → run (state id pressed) keys ≡ described pressed keys
unfolding run described
run-state id pressed [] = refl
run-state id pressed ((now, e) ∷ keys) =
    rw
      (
        state_fire now id pressed,
        state_key now id e (counting now pressed),
        run-state (next_id e id) (after_key now e (counting now pressed)).0 keys,
      )
      refl

-- Whatever keys are pressed at whatever times, while the effect does not run again, the handler with
-- its refs and timeouts does what the description says: a one-key shortcut acts at once, and a key
-- of the navigation acts exactly where the last key before it, leaving aside one-key shortcuts and
-- what is typed into fields, is a "g" pressed less than a second before.
pub run-described : (keys : List (ℕ × KeyEvent)) → run initial keys ≡ described none keys
run-described keys = run-state 0 none keys
