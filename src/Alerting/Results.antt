-- ===== src/Alerting/Results.antt =====
-- The results of a test in frontend/components/dashboard/alerting-config-panel.tsx after a change.
use prefixd.Base.{ℕ, zero, suc, none, List, [], ◌∷◌, get_elem?, or_else, ◌≡◌, refl}
use prefixd.Playbook.Draft.{remove_at}
use prefixd.Alerting.{Panel, remove_dest, save_ended, discard_draft, current_draft}
use prefixd.Alerting.Form.{result_at}

moved_up : {A : Type 0} (i : ℕ) (l : List A) → get_elem? (remove_at i l) i ≡ get_elem? l (suc i)
unfolding remove_at
moved_up i [] = refl
moved_up zero (x ∷ l) = refl
moved_up (suc i) (x ∷ l) = moved_up i l

-- When a destination is removed after a test and the change is saved, each place keeps the result that
-- stood there, and the destination after the removed one has moved up into its place: it is shown with
-- the result of the removed one.
pub removed_results :
    (p : Panel) (i : ℕ)
    → let saved = (save_ended none (remove_dest i p)).0 in
      ((j : ℕ) → result_at saved j ≡ get_elem? (or_else p.test_results []) j)
      × (get_elem? (current_draft (remove_dest i p)) i ≡ get_elem? (current_draft p) (suc i))
unfolding result_at save_ended discard_draft remove_dest
removed_results p i = ((λ j. refl), moved_up i (current_draft p))
