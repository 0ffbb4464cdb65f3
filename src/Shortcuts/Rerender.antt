-- ===== src/Shortcuts/Rerender.antt =====
-- The effect of frontend/hooks/use-keyboard-shortcuts.ts that runs again: its clean-up clears the
-- timeout of a prefix and leaves `gPressedRef` as it is. DashboardLayout
-- (frontend/components/dashboard/dashboard-layout.tsx) gives new callbacks on every rendering, so the
-- handler is a new one and the effect runs again whenever the layout is rendered.
use prefixd.Base.{ℕ, suc, ◌+◌, ◌≤◌, true, Option, none, some, [], if◌then◌else◌, arith, ◌≡◌, refl}
use prefixd.Shortcuts.{
  KeyEvent, World, clear_timeout, clear_ref, navigation, handle_key_down, fire, fire_due,
  rerun_effect,
}
use prefixd.Shortcuts.Prefix.{
  meaning, second, prefix, state, state_key, state_fire, handled, counting, after_key, next_id,
}

after_prefix :
    (t id : ℕ) (g : KeyEvent) (pressed : Option ℕ)
    → meaning g ≡ prefix
    → (handle_key_down t g (state id pressed)).0 ≡ state (suc id) (some t)
unfolding after_key next_id
after_prefix t id g pressed is_g = rw (state_key t id g pressed, is_g) refl

lapsed : (t now id : ℕ) → t + 1000 ≤ now → fire_due now (state id (some t)) ≡ state id none
unfolding counting
lapsed t now id late = rw (state_fire now id (some t)) (ground arith)

lasting : (t now id : ℕ) → (fire_due now (rerun_effect (state id (some t)))).g_pressed ≡ true
unfolding fire_due fire rerun_effect clear_ref clear_timeout
lasting t now id = ground arith

second_key :
    (now : ℕ) (e : KeyEvent) (w : World)
    → meaning e ≡ second
    → (handle_key_down now e w).1 ≡ (if w.g_pressed then navigation e.key else [])
second_key now e w is_e = rw (handled now e w, is_e) (ground arith)

-- A "g" whose effect has run again never lapses: however late a second key comes, it still navigates.
-- Where the effect has not run again, a second key that comes a second or more after the "g" does
-- nothing.
pub stale_prefix :
    (t now id : ℕ) (g e : KeyEvent) (pressed : Option ℕ)
    → meaning g ≡ prefix
    → meaning e ≡ second
    → t + 1000 ≤ now
    → let w = (handle_key_down t g (state id pressed)).0 in
      ((handle_key_down now e (fire_due now (rerun_effect w))).1 ≡ navigation e.key)
      × ((handle_key_down now e (fire_due now w)).1 ≡ [])
stale_prefix t now id g e pressed is_g is_e late = rw (after_prefix t id g pressed is_g) (
  rw (second_key now e (fire_due now (rerun_effect (state (suc id) (some t)))) is_e)
      (rw (lasting t now (suc id)) refl),
  rw (lapsed t now (suc id) late) (second_key now e (state (suc id) none) is_e),
)
