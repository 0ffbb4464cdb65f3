-- ===== src/Playbook/Draft/Laws.antt =====
-- What the drafts of frontend/components/dashboard/playbook-editor.tsx keep.
use prefixd.Base.{
  ℕ, zero, suc, ◌<◌, true, false, none, some, List, [], ◌∷◌, ◌++◌, map, leb, length, length-append,
  All, arith, ◌≡◌, ◌≢◌, refl, sym, ap, subst, ◌∙◌,
}
use prefixd.Base.Text.{Text}
use prefixd.Playbook.{Step, ConfigPlaybook, validate_playbooks}
use prefixd.Base.Numbers.{Number}
use prefixd.Playbook.Valid.{IsValidPlaybook}
use prefixd.Playbook.Loops.{validate_playbooks_iff}
use prefixd.Playbook.Draft.{
  DraftStep, DraftPlaybook, empty_playbook, draft_steps, to_draft, to_api_playbooks, replace_at,
  remove_at, remove_step, change_step, select_action, Editor, mount, update_playbook,
  remove_playbook, add_playbook, handle_discard, handle_save, Change, updates, removes, adds,
  discards, edits, done, saves, Changes, nothing, further,
}

module _ (create_id : ℕ → Text) where
  steps_back :
      (n : ℕ) (steps : List Step) → map (λ s. s.step) (draft_steps create_id n steps).0 ≡ steps
  unfolding draft_steps
  steps_back n [] = refl
  steps_back n (s ∷ steps) = ap (λ l. s ∷ l) (steps_back (suc n) steps)

  -- The drafts of playbooks say what the playbooks say: turned back, they are the same playbooks, so
  -- an editor that was just mounted or discarded has no changes.
  pub to_api_playbooks-to_draft :
      (n : ℕ) (pbs : List ConfigPlaybook) → to_api_playbooks (to_draft create_id n pbs).0 ≡ pbs
  unfolding to_api_playbooks to_draft
  to_api_playbooks-to_draft n [] = refl
  to_api_playbooks-to_draft n (pb ∷ pbs) =
      rw
        (
          steps_back (suc n) pb.steps,
          to_api_playbooks-to_draft (draft_steps create_id (suc n) pb.steps).1 pbs,
        )
        refl

abbrev pub IsInRange : Editor → Type 0
IsInRange s = (index : ℕ) → s.editing_index ≡ some index → index < length s.draft

pub length-replace_at :
    {A : Type 0} (i : ℕ) (x : A) (l : List A) → length (replace_at i x l) ≡ length l
unfolding replace_at
length-replace_at i x [] = refl
length-replace_at zero x (y ∷ l) = refl
length-replace_at (suc i) x (y ∷ l) = ap suc (length-replace_at i x l)

Change-IsInRange :
    {create_id : ℕ → Text} {s t : Editor} → Change create_id s t → IsInRange s → IsInRange t
unfolding update_playbook remove_playbook add_playbook handle_discard handle_save
Change-IsInRange {s = s} (updates index updated) h i e =
    omega (arith, h i e, length-replace_at index updated s.draft)
Change-IsInRange (removes index) h i e = absurd (ground arith)
Change-IsInRange {create_id} {s} adds h i e =
    ground (arith, length-append s.draft (empty_playbook create_id s.next_id ∷ []))
Change-IsInRange (discards pbs) h i e = absurd (ground arith)
Change-IsInRange (edits index lt) h i e = ground arith
Change-IsInRange done h i e = absurd (ground arith)
Change-IsInRange (saves true) h i e = absurd (ground arith)
Change-IsInRange (saves false) h i e = h i e

Changes-keep :
    {create_id : ℕ → Text} {s t : Editor} → Changes create_id s t → IsInRange s → IsInRange t
Changes-keep nothing h = h
Changes-keep (further before change) h = Change-IsInRange change (Changes-keep before h)

-- Whatever is changed in whatever order after the editor was mounted, the playbook that is edited is
-- one of the draft.
pub Changes-IsInRange :
    (create_id : ℕ → Text) (pbs : List ConfigPlaybook) {s : Editor}
    → Changes create_id (mount create_id pbs) s
    → IsInRange s
unfolding mount
Changes-IsInRange create_id pbs changes = Changes-keep changes (λ i e. absurd (ground arith))

All-snoc : {A : Type 0} (P : A → Type 0) (l : List A) (x : A) → All P (l ++ (x ∷ [])) → P x
All-snoc P [] x h = h.0
All-snoc P (y ∷ l) x h = All-snoc P l x h.1

valid_each : (pbs : List ConfigPlaybook) → validate_playbooks pbs ≡ [] → All IsValidPlaybook pbs
valid_each [] e = tt
valid_each (pb ∷ pbs) e = ((validate_playbooks_iff (pb ∷ pbs)).0 e).0

to_api_playbooks-append :
    (ds es : List DraftPlaybook)
    → to_api_playbooks (ds ++ es) ≡ to_api_playbooks ds ++ to_api_playbooks es
unfolding to_api_playbooks
to_api_playbooks-append [] es = refl
to_api_playbooks-append (d ∷ ds) es =
    ap
      (λ l.
        record { name = d.name; match_rule = d.match_rule; steps = map (λ s. s.step) d.steps } ∷ l)
      (to_api_playbooks-append ds es)

-- A playbook that was just added cannot be saved: the validator reports an error for it until it is
-- changed, whatever the other playbooks are.
pub add_playbook_lem :
    (create_id : ℕ → Text) (s : Editor)
    → validate_playbooks (to_api_playbooks (add_playbook create_id s).draft) ≢ []
unfolding add_playbook empty_playbook to_api_playbooks
add_playbook_lem create_id s e =
    let new : DraftPlaybook = empty_playbook create_id s.next_id in
    let valid : All IsValidPlaybook (to_api_playbooks s.draft ++ to_api_playbooks (new ∷ [])) =
      valid_each (to_api_playbooks s.draft ++ to_api_playbooks (new ∷ []))
        (ap validate_playbooks (sym (to_api_playbooks-append s.draft (new ∷ []))) ∙ e) in
    let (c, m, solid) = (All-snoc IsValidPlaybook (to_api_playbooks s.draft) _ valid).named in m

-- When the first step is removed before one that demands a confidence, and the action of the new first
-- step is selected again, the playbook alone still cannot be saved.
pub remove_step-first :
    (d : DraftPlaybook) (first second : DraftStep) (rest : List DraftStep) (action : Text)
    (c : Number)
    → d.steps ≡ first ∷ second ∷ rest
    → second.step.require_confidence_at_least ≡ some c
    → let again = record second { step = select_action action second.step } in
      validate_playbooks (to_api_playbooks (change_step 0 again (remove_step 0 d) ∷ [])) ≢ []
unfolding to_api_playbooks remove_step change_step remove_at replace_at select_action
remove_step-first d first second rest action c is_steps demands e =
    let again : DraftStep = record second { step = select_action action second.step } in
    let left : DraftPlaybook = record d { steps = again ∷ rest } in
    let many : leb (suc (suc (length rest))) 1 ≡ false = ground arith in
    let removed : change_step 0 again (remove_step 0 d) ≡ left = rw (is_steps, many) refl in
    let valid : All IsValidPlaybook (to_api_playbooks (left ∷ [])) =
      valid_each (to_api_playbooks (left ∷ []))
        (subst (λ x. validate_playbooks (to_api_playbooks (x ∷ [])) ≡ []) removed e) in
    some_none (sym demands ∙ valid.0.steps_valid.0)
  where
    some_none : some c ≡ none → ⊥
    some_none q = absurd (ground arith)
