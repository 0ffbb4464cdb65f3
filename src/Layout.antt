-- ===== src/Layout.antt =====
-- The frame around the pages, frontend/components/dashboard/dashboard-layout.tsx: the sidebar, the
-- palette and the help, what the keyboard does to them, and what the browser's storage keeps.
mod Tests
use prefixd.Base.{
  Bool, true, false, not, Option, none, some, List, [], ◌∷◌, if◌then◌else◌, ◌≡◌, refl, arith,
}
use prefixd.Base.Text.{Text, codes, same}
use prefixd.Shortcuts.{Action, on_command_palette, on_toggle_sidebar, on_toggle_help, push}

pub record Layout : Type 0 where
  pub sidebar_open : Bool
  pub sidebar_collapsed : Bool
  pub command_palette_open : Bool
  pub shortcuts_modal_open : Bool
  -- What the storage holds under "prefixd-sidebar-collapsed", as far as this page knows.
  pub stored : Option Text

-- `String(b)`.
abbrev pub bool_text : Bool → Text
bool_text true = codes "true"
bool_text false = codes "false"

-- The layout after its first effect, with what the storage holds.
unfoldable pub mount : Option Text → Layout
mount stored = record {
  sidebar_open = false;
  sidebar_collapsed = elim stored [ none ↦ false | some t ↦ same t (codes "true") ];
  command_palette_open = false;
  shortcuts_modal_open = false;
  stored = stored;
}

unfoldable pub handle_toggle_collapse : Layout → Layout
handle_toggle_collapse s =
    let new_state = not s.sidebar_collapsed in
    record s { sidebar_collapsed = new_state; stored = some (bool_text new_state) }

-- The callbacks of `useKeyboardShortcuts`; a push leaves the layout as it is.
unfoldable pub perform : Action → Layout → Layout
unfolding handle_toggle_collapse
perform on_command_palette s = record s { command_palette_open = true }
perform on_toggle_sidebar s = handle_toggle_collapse s
perform on_toggle_help s = record s { shortcuts_modal_open = not s.shortcuts_modal_open }
perform (push href) s = s

unfoldable pub perform_all : List Action → Layout → Layout
unfolding perform
perform_all [] s = s
perform_all (a ∷ l) s = perform_all l (perform a s)

-- The storage says what the sidebar is, or nothing while it is open.
abbrev pub IsKept : Layout → Type 0
IsKept s = (mount s.stored).sidebar_collapsed ≡ s.sidebar_collapsed

perform-IsKept : (a : Action) (s : Layout) → IsKept s → IsKept (perform a s)
unfolding mount perform
perform-IsKept on_command_palette s h = h
perform-IsKept on_toggle_sidebar s h = by_state s.sidebar_collapsed
  where
    by_state : (b : Bool) → same (bool_text (not b)) (codes "true") ≡ not b
    by_state true = refl
    by_state false = refl
perform-IsKept on_toggle_help s h = h
perform-IsKept (push href) s h = h

perform_all-IsKept : (l : List Action) (s : Layout) → IsKept s → IsKept (perform_all l s)
unfolding perform_all
perform_all-IsKept [] s h = h
perform_all-IsKept (a ∷ l) s h = perform_all-IsKept l (perform a s) (perform-IsKept a s h)

-- Whatever the keyboard does, a layout that is mounted later finds the sidebar as this one left it.
pub remounted :
    (stored : Option Text) (l : List Action)
    → (mount (perform_all l (mount stored)).stored).sidebar_collapsed
      ≡ (perform_all l (mount stored)).sidebar_collapsed
unfolding mount
remounted stored l = perform_all-IsKept l (mount stored) refl
