-- ===== src/Alerting/Life.antt =====
-- The life of the panel of frontend/components/dashboard/alerting-config-panel.tsx, for an
-- administrator to whom the configuration has been shown, as a step relation.
use prefixd.Base.{
  ℕ, zero, suc, ◌<◌, Bool, true, false, Option, none, some, List, [], ◌∷◌, map, is_some, length,
  length-append, if◌then◌else◌, or_else, inl, inr, ◌⊎◌, arith, ◌≡◌, ◌≢◌, refl, sym, ap, ◌∙◌, subst,
}
use prefixd.Base.Text.{Text}
use prefixd.Base.Http.{Result, ok, err}
use prefixd.Playbook.Draft.{remove_at}
use prefixd.Playbook.Draft.Laws.{length-replace_at}
use prefixd.Api.Types.{DestType, AlertingDestination, AlertingConfig, AlertingTestResult}
use prefixd.Api.Endpoints.{Request, update_alerting_config}
use prefixd.Admin.Invariant.{flag}
use prefixd.Alerting.{
  DraftDestination, Panel, initial, is_editing, to_drafts, init_draft, discard_draft, handle_save,
  save_ended, handle_test, test_ended, current_draft, empty_dest, add_dest, index_after,
  remove_dest, update_dest, toggle_event, strip_draft_id,
}
use prefixd.Alerting.Form.{save_is_enabled, discard_is_enabled, shown_events}

-- The panel, the configuration that has arrived, the number of the saves under way, and the requests
-- of all saves, the last one first.
pub record World : Type 0 where
  pub panel : Panel
  pub data_received : AlertingConfig
  pub under_way : ℕ
  pub sent : List Request

abbrev pub with_panel : Panel → World → World
with_panel p w = record w { panel = p }

abbrev pub saving_of : World → Panel × Option Request → World
saving_of w (p, none) = with_panel p w
saving_of w (p, some request) = record w {
  panel = p;
  under_way = suc w.under_way;
  sent = request ∷ w.sent;
}

module _ (new_id : ℕ → Text) (stringify : List AlertingDestination → Text)
    (stringify_events : List Text → Text) where
  -- What can happen: the buttons as far as they are shown and enabled, and the ends of the requests.
  pub data Step (w : World) : World → Type 0 where
    starts :
        is_editing w.panel ≡ false
        → Step w (with_panel (init_draft new_id (some w.data_received) w.panel) w)
    discards : discard_is_enabled w.panel ≡ true → Step w (with_panel (discard_draft w.panel) w)
    saves :
        save_is_enabled stringify stringify_events (some w.data_received) w.panel ≡ true
        → Step w (saving_of w (handle_save w.panel))
    ends :
        (thrown : Option Text) (n : ℕ)
        → w.under_way ≡ suc n
        → Step w (record w { panel = (save_ended thrown w.panel).0; under_way = n })
    tests : w.panel.testing ≡ false → Step w (with_panel (handle_test w.panel).0 w)
    tested :
        (result : Result (List AlertingTestResult))
        → Step w (with_panel (test_ended result w.panel) w)
    adds :
        (kind : DestType)
        → is_editing w.panel ≡ true
        → Step w (with_panel (add_dest new_id kind w.panel) w)
    removes :
        (i : ℕ) → i < length (current_draft w.panel) → Step w (with_panel (remove_dest i w.panel) w)
    updates :
        (i : ℕ) (d : DraftDestination)
        → i < length (current_draft w.panel)
        → Step w (with_panel (update_dest i d w.panel) w)
    toggles :
        (event : Text)
        → is_editing w.panel ≡ true
        → Step w (with_panel (toggle_event event w.panel) w)
    edits :
        (i : ℕ)
        → i < length (current_draft w.panel)
        → Step w (with_panel (record w.panel { editing_index = some i }) w)
    done : Step w (with_panel (record w.panel { editing_index = none }) w)
    arrives : (config : AlertingConfig) → Step w (record w { data_received = config })

  pub data Reach (w : World) : World → Type 0 where
    here : Reach w w
    next : {v u : World} → Reach w v → Step v u → Reach w u

abbrev pub opened : AlertingConfig → World
opened config = record { panel = initial; data_received = config; under_way = 0; sent = [] }

abbrev pub IsEditable : Panel → Type 0
IsEditable p = (i : ℕ) → p.editing_index ≡ some i → i < length (current_draft p)

-- The destinations and the events are edited together, the form that is open is one of the draft's,
-- and a save is under way exactly where the flag says so, one at most.
pub record IsSound (w : World) : Type 0 where
  pub together : is_some w.panel.draft ≡ is_some w.panel.draft_events
  pub editable : IsEditable w.panel
  pub one_save : w.under_way ≡ flag w.panel.saving

nothing_edited : (i : ℕ) → none ≡ some i → i < 0
nothing_edited i e = absurd (ground arith)

step-IsSound :
    (w : World) (p : Panel)
    → p.draft ≡ w.panel.draft
    → p.draft_events ≡ w.panel.draft_events
    → p.editing_index ≡ w.panel.editing_index
    → p.saving ≡ w.panel.saving
    → IsSound w
    → IsSound (with_panel p w)
step-IsSound w p d v i s h = record {
  together = ap is_some d ∙ h.together ∙ ap is_some (sym v);
  editable = λ j e. rw d (h.editable j (sym i ∙ e));
  one_save = h.one_save ∙ ap flag (sym s);
}

length-to_drafts :
    (new_id : ℕ → Text) (n : ℕ) (l : List AlertingDestination)
    → length (to_drafts new_id n l) ≡ length l
length-to_drafts new_id n [] = refl
length-to_drafts new_id n (d ∷ l) = ap suc (length-to_drafts new_id (suc n) l)

length-remove_at :
    {A : Type 0} (i : ℕ) (l : List A) → i < length l → suc (length (remove_at i l)) ≡ length l
unfolding remove_at
length-remove_at i [] h = absurd (omega (arith, h))
length-remove_at zero (x ∷ l) h = refl
length-remove_at (suc i) (x ∷ l) h = ap suc (length-remove_at i l (omega (arith, h)))

no_drafts : (o : Option (List DraftDestination)) → is_some o ≡ false → length (or_else o []) ≡ 0
no_drafts none e = refl
no_drafts (some drafts) e = absurd (ground arith)

some_drafts :
    (o : Option (List DraftDestination)) (i : ℕ) → i < length (or_else o []) → is_some o ≡ true
some_drafts none i h = absurd (omega (arith, h))
some_drafts (some drafts) i h = refl

moved_within :
    (removed j n : ℕ) (o : Option ℕ)
    → ((k : ℕ) → o ≡ some k → k < suc n)
    → removed < suc n
    → index_after removed o ≡ some j
    → j < n
unfolding index_after
moved_within removed j n none within there e = absurd (ground arith)
moved_within removed j n (some k) within there e = ground (arith, within k refl)

never_null :
    (config : AlertingConfig) (drafts : Option (List DraftDestination))
    (events : Option (List Text))
    → is_some drafts ≡ is_some events
    → (if is_some drafts then events else some config.events) ≢ none
never_null config none events e f = ground arith
never_null config (some drafts) none e f = ground arith
never_null config (some drafts) (some events) e f = ground arith

-- Saving does nothing, or starts one request.
abbrev Saves : Panel → Type 0
Saves p =
    (handle_save p ≡ (p, none))
    ⊎ ((r : Request) × (handle_save p ≡ (record p { saving = true }, some r)))

by_draft :
    (drafts : Option (List DraftDestination)) (events : Option (List Text)) (p : Panel)
    → Saves (record p { draft = drafts; draft_events = events })
unfolding handle_save
by_draft none events p = inl refl
by_draft (some drafts) none p = inl refl
by_draft (some drafts) (some events) p = inr (
  update_alerting_config (record { destinations = map strip_draft_id drafts; events = events }),
  refl,
)

handle_save-cases : (p : Panel) → Saves p
handle_save-cases p = by_draft p.draft p.draft_events p

module _ (new_id : ℕ → Text) (stringify : List AlertingDestination → Text)
    (stringify_events : List Text → Text) where
  discarded-IsSound :
      (w : World) (p : Panel) (n : ℕ)
      → p.draft ≡ none
      → p.draft_events ≡ none
      → p.editing_index ≡ none
      → n ≡ flag p.saving
      → IsSound (record w { panel = p; under_way = n })
  discarded-IsSound w p n d v i s = record {
    together = ap is_some d ∙ ap is_some (sym v);
    editable = λ j e. rw d (nothing_edited j (sym i ∙ e));
    one_save = s;
  }

  one_less : (n : ℕ) (saving : Bool) → suc n ≡ flag saving → n ≡ 0
  one_less n true e = omega arith
  one_less n false e = omega arith

  started-IsSound :
      (w : World)
      → is_editing w.panel ≡ false
      → IsSound w
      → IsSound (with_panel (init_draft new_id (some w.data_received) w.panel) w)
  unfolding init_draft
  started-IsSound w idle h = record {
    together = refl;
    editable = λ j e. absurd (omega (arith, h.editable j e, no_drafts w.panel.draft idle));
    one_save = h.one_save;
  }

  saved-IsSound :
      (w : World) → w.panel.saving ≡ false → IsSound w → IsSound (saving_of w (handle_save w.panel))
  unfolding handle_save
  saved-IsSound w idle h = elim (handle_save-cases w.panel) [
    | inl nothing ↦
        subst (λ r. IsSound (saving_of w r)) (sym nothing)
          (step-IsSound w w.panel refl refl refl refl h)
    | inr (request, started) ↦
        subst (λ r. IsSound (saving_of w r)) (sym started)
          (record {
            together = h.together;
            editable = h.editable;
            one_save = ap suc (h.one_save ∙ ap flag idle);
          })
  ]

  Step-IsSound : {w v : World} → Step new_id stringify stringify_events w v → IsSound w → IsSound v
  unfolding discard_draft save_ended handle_test test_ended add_dest remove_dest update_dest
      toggle_event save_is_enabled
  Step-IsSound {w} (starts idle) h = started-IsSound w idle h
  Step-IsSound {w} (discards e) h =
      discarded-IsSound w (discard_draft w.panel) w.under_way refl refl refl h.one_save
  Step-IsSound {w} (saves e) h = saved-IsSound w (ground arith) h
  Step-IsSound {w} (ends none n e) h =
      discarded-IsSound w (save_ended none w.panel).0 n refl refl refl
        (one_less n w.panel.saving (sym e ∙ h.one_save))
  Step-IsSound {w} (ends (some message) n e) h = record {
    together = h.together;
    editable = h.editable;
    one_save = one_less n w.panel.saving (sym e ∙ h.one_save);
  }
  Step-IsSound {w} (tests e) h = step-IsSound w (handle_test w.panel).0 refl refl refl refl h
  Step-IsSound {w} (tested (ok results)) h =
      step-IsSound w (test_ended (ok results) w.panel) refl refl refl refl h
  Step-IsSound {w} (tested (err message)) h =
      step-IsSound w (test_ended (err message) w.panel) refl refl refl refl h
  Step-IsSound {w} (adds kind e) h = record {
    together = sym e ∙ h.together;
    editable = λ j f. ground (
      arith,
      length-append (current_draft w.panel) (empty_dest (new_id w.panel.next_id) kind ∷ []),
    );
    one_save = h.one_save;
  }
  Step-IsSound {w} (removes i here_i) h = record {
    together = sym (some_drafts w.panel.draft i here_i) ∙ h.together;
    editable = λ j f.
        moved_within i j (length (remove_at i (current_draft w.panel))) w.panel.editing_index
          (λ k e. omega (arith, h.editable k e, length-remove_at i (current_draft w.panel) here_i))
          (omega (arith, here_i, length-remove_at i (current_draft w.panel) here_i)) f;
    one_save = h.one_save;
  }
  Step-IsSound {w} (updates i d here_i) h = record {
    together = sym (some_drafts w.panel.draft i here_i) ∙ h.together;
    editable = λ j f.
        subst (λ n. j < n) (sym (length-replace_at i d (current_draft w.panel))) (h.editable j f);
    one_save = h.one_save;
  }
  Step-IsSound {w} (toggles event e) h = record {
    together = h.together ∙ ground arith;
    editable = h.editable;
    one_save = h.one_save;
  }
  Step-IsSound {w} (edits i here_i) h = record {
    together = h.together;
    editable = λ j f. ground arith;
    one_save = h.one_save;
  }
  Step-IsSound {w} done h = record {
    together = h.together;
    editable = λ j f. absurd (ground arith);
    one_save = h.one_save;
  }
  Step-IsSound (arrives config) h = record {
    together = h.together;
    editable = h.editable;
    one_save = h.one_save;
  }

  -- Whatever is clicked, typed and answered in whatever order: the destinations and the events are
  -- edited together, so the events that are shown are never missing; the form that is open is that of a
  -- destination on the list; and at most one save is under way, which the flag says.
  pub Reach-IsSound :
      (config : AlertingConfig) {w : World}
      → Reach new_id stringify stringify_events (opened config) w
      → IsSound w × (shown_events w.data_received w.panel ≢ none)
  unfolding shown_events
  Reach-IsSound config {w} r =
      (sound r, never_null w.data_received w.panel.draft w.panel.draft_events (sound r).together)
    where
      sound : {v : World} → Reach new_id stringify stringify_events (opened config) v → IsSound v
      sound here = record { together = refl; editable = λ i e. nothing_edited i e; one_save = refl }
      sound (next before st) = Step-IsSound st (sound before)
