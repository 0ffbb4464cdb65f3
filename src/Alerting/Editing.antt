-- ===== src/Alerting/Editing.antt =====
-- Which destination is edited in frontend/components/dashboard/alerting-config-panel.tsx.
use prefixd.Base.{
  ℕ, zero, suc, ◌-◌, ◌<◌, Option, none, some, List, [], ◌∷◌, ◌++◌, if◌then◌else◌, ◌==◌, ltb, length,
  get_elem?, arith, ◌≡◌, ◌≢◌, refl, sym, ap,
}
use prefixd.Base.Text.{Text}
use prefixd.Playbook.Draft.{replace_at, remove_at}
use prefixd.Api.Types.{DestType}
use prefixd.Alerting.{
  DraftDestination, Panel, current_draft, empty_dest, add_dest, index_after, remove_dest,
  update_dest,
}

-- The destination whose form is open.
abbrev pub edited : Panel → Option DraftDestination
edited p = elim p.editing_index [ none ↦ none | some i ↦ get_elem? (current_draft p) i ]

get_elem?-remove_at :
    {A : Type 0} (j i : ℕ) (l : List A)
    → i ≢ j
    → get_elem? (remove_at j l) (if ltb j i then i - 1 else i) ≡ get_elem? l i
unfolding remove_at
get_elem?-remove_at j i [] h = ground arith
get_elem?-remove_at zero zero (x ∷ l) h = absurd (h refl)
get_elem?-remove_at zero (suc i) (x ∷ l) h = ground arith
get_elem?-remove_at (suc j) zero (x ∷ l) h = ground arith
get_elem?-remove_at (suc j) (suc zero) (x ∷ l) h =
    ground (arith, get_elem?-remove_at j 0 l (λ e. h (ap suc e)))
get_elem?-remove_at (suc j) (suc (suc i)) (x ∷ l) h =
    ground (arith, get_elem?-remove_at j (suc i) l (λ e. h (ap suc e)))

get_elem?-replace_at :
    {A : Type 0} (j i : ℕ) (a : A) (l : List A)
    → get_elem? (replace_at j a l) i
      ≡ (if i == j then (if ltb j (length l) then some a else none) else get_elem? l i)
unfolding replace_at
get_elem?-replace_at j i a [] = ground arith
get_elem?-replace_at zero zero a (x ∷ l) = ground arith
get_elem?-replace_at zero (suc i) a (x ∷ l) = ground arith
get_elem?-replace_at (suc j) zero a (x ∷ l) = ground arith
get_elem?-replace_at (suc j) (suc i) a (x ∷ l) = ground (arith, get_elem?-replace_at j i a l)

get_elem?-snoc : {A : Type 0} (l : List A) (a : A) → get_elem? (l ++ (a ∷ [])) (length l) ≡ some a
get_elem?-snoc [] a = refl
get_elem?-snoc (x ∷ l) a = get_elem?-snoc l a

-- The form that is open stays on its destination: adding one opens the form of the new one; removing
-- the destination that is edited closes the form, and removing another one keeps it open on the same
-- destination; an update of another destination keeps it, and an update of the edited one shows it.
pub edited_lem :
    (new_id : ℕ → Text) (kind : DestType) (j i : ℕ) (updated : DraftDestination) (p : Panel)
    → p.editing_index ≡ some i
    → i < length (current_draft p)
    → (edited (add_dest new_id kind p) ≡ some (empty_dest (new_id p.next_id) kind))
      × (edited (remove_dest i p) ≡ none)
      × (j ≢ i → edited (remove_dest j p) ≡ edited p)
      × (edited (update_dest i updated p) ≡ some updated)
      × (j ≢ i → edited (update_dest j updated p) ≡ edited p)
unfolding add_dest remove_dest update_dest index_after
edited_lem new_id kind j i updated p e lt = (
  get_elem?-snoc (current_draft p) (empty_dest (new_id p.next_id) kind),
  rw e (ground arith),
  λ ne. rw e (ground (arith, get_elem?-remove_at j i (current_draft p) (λ e'. ne (sym e')))),
  rw e (ground (arith, get_elem?-replace_at i i updated (current_draft p))),
  λ ne. rw e (ground (arith, get_elem?-replace_at j i updated (current_draft p))),
)
