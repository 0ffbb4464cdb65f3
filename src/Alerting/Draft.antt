-- ===== src/Alerting/Draft.antt =====
-- The life of a draft in frontend/components/dashboard/alerting-config-panel.tsx.
use prefixd.Base.{
  ℕ, suc, Bool, true, false, not, ◌&&◌, ◌||◌, Option, none, some, List, [], ◌∷◌, ◌++◌, map,
  if◌then◌else◌, any, keep, or_else, arith, ◌≡◌, refl, subst, sym, ap,
}
use prefixd.Base.Text.{Text, same, same_iff, same_refl}
use prefixd.Api.Types.{AlertingDestination, AlertingConfig}
use prefixd.Api.Endpoints.{update_alerting_config}
use prefixd.Alerting.{
  DraftDestination, Panel, strip_draft_id, to_drafts, init_draft, handle_save, save_ended,
  toggle_event,
}
use prefixd.Alerting.Form.{has_changes, save_is_enabled}

strip-to_drafts :
    (new_id : ℕ → Text) (n : ℕ) (l : List AlertingDestination)
    → map strip_draft_id (to_drafts new_id n l) ≡ l
strip-to_drafts new_id n [] = refl
strip-to_drafts new_id n (d ∷ l) = ap (◌∷◌ d) (strip-to_drafts new_id (suc n) l)

-- Saving a draft that was not changed asks the daemon for the configuration that was loaded.
pub handle_save-init_draft :
    (new_id : ℕ → Text) (config : AlertingConfig) (p : Panel)
    → (handle_save (init_draft new_id (some config) p)).1 ≡ some (update_alerting_config config)
unfolding handle_save init_draft
handle_save-init_draft new_id config p =
    ap (λ l. some (update_alerting_config (record { destinations = l; events = config.events })))
      (strip-to_drafts new_id p.next_id config.destinations)

retried :
    (message : Text) (drafts : Option (List DraftDestination)) (events : Option (List Text))
    (p : Panel)
    → let q = record p { draft = drafts; draft_events = events; saving = false } in
      handle_save (save_ended (some message) (handle_save q).0).0 ≡ handle_save q
unfolding handle_save save_ended
retried message none events p = refl
retried message (some drafts) none p = refl
retried message (some drafts) (some events) p = refl

-- After a save that failed the button gives the same request again, of the same panel.
pub handle_save-save_ended :
    (message : Text) (p : Panel)
    → p.saving ≡ false
    → handle_save (save_ended (some message) (handle_save p).0).0 ≡ handle_save p
handle_save-save_ended message p idle =
    subst
      (λ b.
        let q = record p { saving = b } in
        handle_save (save_ended (some message) (handle_save q).0).0 ≡ handle_save q)
      (sym idle) (retried message p.draft p.draft_events p)

-- A draft that was just opened has no unsaved changes, and its save is not enabled.
pub init_draft-unchanged :
    (new_id : ℕ → Text) (stringify : List AlertingDestination → Text)
    (stringify_events : List Text → Text) (config : AlertingConfig) (p : Panel)
    → let opened = init_draft new_id (some config) p in
      (has_changes stringify stringify_events (some config) opened ≡ false)
      × (save_is_enabled stringify stringify_events (some config) opened ≡ false)
unfolding has_changes save_is_enabled init_draft
init_draft-unchanged new_id stringify stringify_events config p =
    rw
      (
        strip-to_drafts new_id p.next_id config.destinations,
        same_refl (stringify config.destinations),
        same_refl (stringify_events config.events),
      )
      (refl, refl)

-- The event is on the list of the draft.
abbrev pub has_event : Text → Panel → Bool
has_event event p = any (λ e. same e event) (or_else p.draft_events [])

any-same :
    (x y : Text) (l : List Text) → same y x ≡ true → any (λ e. same e x) l ≡ any (λ e. same e y) l
any-same x y l e = ap (λ t. any (λ e'. same e' t) l) (sym ((same_iff y x).0 e))

any-keep :
    (x y : Text) (l : List Text)
    → any (λ e. same e x) (keep (λ e. not (same e y)) l) ≡ (not (same y x) && any (λ e. same e x) l)
any-keep x y [] = ground arith
any-keep x y (z ∷ l) = ground (arith, any-keep x y l, same_iff z y, same_iff z x, same_iff y x)

any-snoc :
    (x y : Text) (l : List Text)
    → any (λ e. same e x) (l ++ (y ∷ [])) ≡ (any (λ e. same e x) l || same y x)
any-snoc x y [] = ground arith
any-snoc x y (z ∷ l) = ground (arith, any-snoc x y l)

-- `toggleEvent` of a draft turns the event over and leaves every other one as it was.
pub toggle_event_lem :
    (event x : Text) (events : List Text) (p : Panel)
    → p.draft_events ≡ some events
    → has_event x (toggle_event event p)
      ≡ (if same event x then not (has_event x p) else has_event x p)
unfolding toggle_event
toggle_event_lem event x events p e =
    rw e (ground (arith, turned, any-keep x event events, any-snoc x event events))
  where
    turned : same event x ≡ true → any (λ e'. same e' x) events ≡ any (λ e'. same e' event) events
    turned = any-same x event events
