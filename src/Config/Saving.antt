-- ===== src/Config/Saving.antt =====
-- What the saves of frontend/app/(dashboard)/config/page.tsx send.
use prefixd.Base.{
  subst, ◌∙◌, ℕ, suc, Bool, true, false, Bool-cases, inl, inr, ◌⊎◌, Option, none, some, List, [],
  ◌∷◌, All, length, arith, ◌≡◌, ◌↔◌, refl, sym, ap,
}
use prefixd.Base.Text.{Text}
use prefixd.Base.Http.{Result}
use prefixd.Api.Endpoints.{Request, update_playbooks}
use prefixd.Playbook.{ConfigPlaybook, validate_playbooks}
use prefixd.Playbook.Valid.{AreValid}
use prefixd.Playbook.Loops.{validate_playbooks_iff}
use prefixd.Playbook.Draft.{Editor, to_api_playbooks}
use prefixd.Playbook.Yaml.{Browser, Value, is_empty, apply_is_enabled}
use prefixd.Playbook.Yaml.Laws.{apply_is_enabled_lem}
use prefixd.Admin.Invariant.{flag}
use prefixd.Config.{
  save_seen, form_view, yaml_view, View, fire_due, handle_reload, reload_ended, saves, ends,
  arrives, views, changes, types, reloads, reloaded, passes, here, next, fire_due, View, ConfigPage,
  Loaded, Mounted, form, yaml, has_changes, save_is_enabled, click_save, handle_save_playbooks,
  playbooks_saved, data_arrived, set_playbook_view, remounted, World, Step, Reach, opened, clicked,
}

-- The request saves valid playbooks.
abbrev pub SavesValid : Request → Type 0
SavesValid r = (pbs : List ConfigPlaybook) × (r ≡ update_playbooks pbs) × AreValid pbs

empty_list : (l : List Text) → is_empty l ≡ true → l ≡ []
empty_list [] e = refl
empty_list (x ∷ l) e = ground arith

-- Where the button of the form is enabled, the draft differs from what was loaded, its playbooks are
-- valid, and no save is under way.
pub save_is_enabled_iff :
    (stringify : List ConfigPlaybook → Text) (json : Text) (e : Editor) (saving : Bool)
    → (save_is_enabled stringify json e saving ≡ true) ↔ (
        (has_changes stringify json e ≡ true)
        × AreValid (to_api_playbooks e.draft)
        × (saving ≡ false))
unfolding save_is_enabled
save_is_enabled_iff stringify json e saving =
    let errors = validate_playbooks (to_api_playbooks e.draft) in
    let valid = validate_playbooks_iff (to_api_playbooks e.draft) in
    (
      λ h. (ground arith, valid.0 (empty_list errors (ground arith)), ground arith),
      λ (changed, good, idle). rw (changed, valid.1 good, idle) refl,
    )

module _ (create_id : ℕ → Text) (stringify : List ConfigPlaybook → Text) (b : Browser)
    (dump : Value → Text) (load : Text → Result Value) where
  -- A click that sends nothing and changes nothing, or one that starts a save of valid playbooks where
  -- none was under way.
  abbrev pub Clicked : ConfigPage → Type 0
  Clicked s =
      let result = click_save create_id stringify b dump load s in
      (result ≡ (s, none))
      ⊎ ((s.saving ≡ false)
          × (pbs : List ConfigPlaybook) × AreValid pbs
          × (result ≡ (record s { saving = true }, some (update_playbooks pbs))))

  form_click : (s : ConfigPage) (e : Editor) → s.editor ≡ form e → Clicked s
  unfolding click_save handle_save_playbooks
  form_click s e is_form = elim (Bool-cases (save_is_enabled stringify s.loaded.json e s.saving)) [
    | inl on ↦
        let (changed, valid, idle) =
          (save_is_enabled_iff stringify s.loaded.json e s.saving).0 on in
        inr (idle, to_api_playbooks e.draft, valid, rw (is_form, on) refl)
    | inr off ↦ inl (rw (is_form, off) refl)
  ]

  idle_if_enabled :
      (s : ConfigPage) (text : Text)
      → apply_is_enabled b dump load s.loaded.playbooks text s.saving ≡ true
      → s.saving ≡ false
  unfolding apply_is_enabled
  idle_if_enabled s text on = ground arith

  yaml_click : (s : ConfigPage) (text : Text) → s.editor ≡ yaml text → Clicked s
  unfolding click_save handle_save_playbooks
  yaml_click s text is_yaml =
      elim (Bool-cases (apply_is_enabled b dump load s.loaded.playbooks text s.saving)) [
        | inl on ↦
            let (read, found, valid) =
              apply_is_enabled_lem b dump load s.loaded.playbooks text s.saving on in
            inr (idle_if_enabled s text on, read, valid, rw (is_yaml, on, found) refl)
        | inr off ↦ inl (rw (is_yaml, off) refl)
      ]

  pub click_save_lem : (s : ConfigPage) → Clicked s
  click_save_lem s = by_editor s.editor refl
    where
      by_editor : (m : Mounted) → s.editor ≡ m → Clicked s
      by_editor (form e) h = form_click s e h
      by_editor (yaml text) h = yaml_click s text h

  -- The flag of saving is set exactly while a save is under way, and then there is one; and every save
  -- that was ever sent is of valid playbooks.
  pub record IsSaveSafe (w : World create_id stringify b dump load) : Type 0 where
    pub in_step : length w.under_way ≡ flag w.page.saving
    pub sent_valid : All SavesValid w.sent

  saving-remounted :
      (loaded : Loaded) (s : ConfigPage)
      → (data_arrived create_id stringify b dump load loaded s).saving ≡ s.saving
  unfolding data_arrived remounted
  saving-remounted loaded s = ground arith

  saving-view :
      (v : View) (s : ConfigPage)
      → (set_playbook_view create_id stringify b dump load v s).saving ≡ s.saving
  unfolding set_playbook_view remounted
  saving-view form_view s = ground arith
  saving-view yaml_view s = ground arith

  saving-seen :
      (caller : ℕ) (s : ConfigPage)
      → (save_seen create_id stringify b dump load caller s).saving ≡ s.saving
  saving-seen caller s = ground arith

  saving-saved :
      (caller : ℕ) (thrown : Option Text) (again : Option Loaded) (s : ConfigPage)
      → (playbooks_saved create_id stringify b dump load caller thrown again s).0.saving ≡ false
  unfolding playbooks_saved
  saving-saved caller (some message) again s = refl
  saving-saved caller none none s = saving-seen caller (record s { saving = false })
  saving-saved caller none (some loaded) s =
      saving-seen caller
        (record (data_arrived create_id stringify b dump load loaded s) { saving = false })

  saving-pass : (now : ℕ) (l : List ℕ) (s : ConfigPage) → (fire_due now l s).saving ≡ s.saving
  unfolding fire_due
  saving-pass now [] s = refl
  saving-pass now (due ∷ l) s =
      ground (arith, saving-pass now l s, saving-pass now l (record s { reload_result = none }))

  one_less : (n : ℕ) (saving : Bool) → suc n ≡ flag saving → n ≡ 0
  one_less n true e = omega arith
  one_less n false e = omega arith

  Step-IsSaveSafe :
      {w v : World create_id stringify b dump load}
      → Step create_id stringify b dump load w v
      → IsSaveSafe w
      → IsSaveSafe v
  unfolding handle_reload reload_ended
  Step-IsSaveSafe {w} saves h = elim (click_save_lem w.page) [
    | inl nothing ↦
        subst (λ r. IsSaveSafe (clicked create_id stringify b dump load w r)) (sym nothing)
          (record { in_step = h.in_step; sent_valid = h.sent_valid })
    | inr (idle, pbs, valid, started) ↦
        subst (λ r. IsSaveSafe (clicked create_id stringify b dump load w r)) (sym started)
          (record {
            in_step = ap suc (h.in_step ∙ ap flag idle);
            sent_valid = ((pbs, refl, valid), h.sent_valid);
          })
  ]
  Step-IsSaveSafe {w} (ends thrown again caller rest e) h = record {
    in_step =
        one_less (length rest) w.page.saving (ap length (sym e) ∙ h.in_step)
        ∙ ap flag (sym (saving-saved caller thrown again w.page));
    sent_valid = h.sent_valid;
  }
  Step-IsSaveSafe {w} (arrives loaded) h = record {
    in_step = h.in_step ∙ ap flag (sym (saving-remounted loaded w.page));
    sent_valid = h.sent_valid;
  }
  Step-IsSaveSafe {w} (views v) h = record {
    in_step = h.in_step ∙ ap flag (sym (saving-view v w.page));
    sent_valid = h.sent_valid;
  }
  Step-IsSaveSafe (changes e f is_form c) h = record {
    in_step = h.in_step;
    sent_valid = h.sent_valid;
  }
  Step-IsSaveSafe (types text typed is_yaml) h = record {
    in_step = h.in_step;
    sent_valid = h.sent_valid;
  }
  Step-IsSaveSafe reloads h = record { in_step = h.in_step; sent_valid = h.sent_valid }
  Step-IsSaveSafe (reloaded now none) h = record { in_step = h.in_step; sent_valid = h.sent_valid }
  Step-IsSaveSafe (reloaded now (some message)) h = record {
    in_step = h.in_step;
    sent_valid = h.sent_valid;
  }
  Step-IsSaveSafe {w} (passes now) h = record {
    in_step = h.in_step ∙ ap flag (sym (saving-pass now w.page.timeouts w.page));
    sent_valid = h.sent_valid;
  }

  -- Whatever is typed, clicked and answered in whatever order, at most one save is under way, the flag
  -- says whether there is one, and every save that was sent, by either editor, was of valid playbooks.
  pub Reach-IsSaveSafe :
      (loaded : Loaded) {w : World create_id stringify b dump load}
      → Reach create_id stringify b dump load (opened create_id stringify b dump load loaded) w
      → IsSaveSafe w
  Reach-IsSaveSafe loaded here = record { in_step = refl; sent_valid = tt }
  Reach-IsSaveSafe loaded (next before st) = Step-IsSaveSafe st (Reach-IsSaveSafe loaded before)
