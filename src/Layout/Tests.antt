-- ===== src/Layout/Tests.antt =====
-- The frame on small runs.
use prefixd.Base.{none, some, [], ◌∷◌, ◌≡◌, refl}
use prefixd.Base.Text.{codes}
use prefixd.Shortcuts.{on_toggle_sidebar}
use prefixd.Layout.{mount, perform_all}

toggled_once : (perform_all (on_toggle_sidebar ∷ []) (mount none)).stored ≡ some (codes "true")
unfolding mount perform_all
toggled_once = refl
