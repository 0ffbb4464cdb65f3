-- ===== src/Config/Laws.antt =====
-- What is lost on the page of frontend/app/(dashboard)/config/page.tsx, and what is not.
use prefixd.Base.{
  ℕ, any, Bool-cases, inl, inr, subst, ◌==◌, suc, Bool, false, not, Option, none, some, List, [],
  ◌∷◌, ◌++◌, leb, if◌then◌else◌, arith, ◌≡◌, ◌≢◌, refl, sym, ap,
}
use prefixd.Base.Text.{Text, codes, same, same_refl, same_iff}
use prefixd.Base.Http.{Result}
use prefixd.Playbook.{ConfigPlaybook}
use prefixd.Playbook.Draft.{Editor, to_api_playbooks, to_draft, mount, handle_discard, handle_save}
use prefixd.Playbook.Draft.Laws.{to_api_playbooks-to_draft}
use prefixd.Playbook.Yaml.{Browser, Value, playbooks_to_yaml}
use prefixd.Config.{
  ConfigPage, Loaded, Mounted, form, yaml, view_of, form_view, yaml_view, View, has_changes,
  mounted, remounted, set_playbook_view, data_arrived, playbooks_saved, save_seen, reload_ended,
  fire_due, pass,
}

module _ (create_id : ℕ → Text) (stringify : List ConfigPlaybook → Text) (b : Browser)
    (dump : Value → Text) (load : Text → Result Value) where
  -- What the editor has that the loaded playbooks do not.
  abbrev pub is_changed : Loaded → Mounted → Bool
  is_changed loaded (form e) = has_changes stringify loaded.json e
  is_changed loaded (yaml text) = not (same text (playbooks_to_yaml b dump load loaded.playbooks))

  unchanged :
      (loaded : Loaded) (n : ℕ)
      → loaded.json ≡ stringify loaded.playbooks
      → not (
          same (stringify (to_api_playbooks (to_draft create_id n loaded.playbooks).0)) loaded.json)
        ≡ false
  unchanged loaded n text =
      rw (text, to_api_playbooks-to_draft create_id n loaded.playbooks)
        (ap not (same_refl (stringify loaded.playbooks)))

  -- An editor that has just been mounted shows no unsaved changes, and the form shows none after
  -- "Discard", if the loaded playbooks have the text that JSON.stringify makes of the draft's.
  pub mounted-unchanged :
      (loaded : Loaded) (v : View) (e : Editor)
      → loaded.json ≡ stringify loaded.playbooks
      → (is_changed loaded (mounted create_id stringify b dump load v loaded) ≡ false)
        × (has_changes stringify loaded.json (handle_discard create_id loaded.playbooks e) ≡ false)
  unfolding mounted has_changes mount handle_discard
  mounted-unchanged loaded form_view e text =
      (unchanged loaded 0 text, unchanged loaded e.next_id text)
  mounted-unchanged loaded yaml_view e text = (
    ap not (same_refl (playbooks_to_yaml b dump load loaded.playbooks)),
    unchanged loaded e.next_id text,
  )

  arrived_anew :
      (loaded : Loaded) (s : ConfigPage)
      → loaded.loaded_at ≢ s.loaded.loaded_at
      → data_arrived create_id stringify b dump load loaded s
        ≡ remounted create_id stringify b dump load
            (view_of s.editor)
            (record s { loaded = loaded })
  unfolding data_arrived
  arrived_anew loaded s another = elim (Bool-cases (same loaded.loaded_at s.loaded.loaded_at)) [
    | inl e ↦ absurd (another ((same_iff loaded.loaded_at s.loaded.loaded_at).0 e))
    | inr e ↦ rw e refl
  ]

  seen_anew :
      (caller : ℕ) (v : View) (s : ConfigPage)
      → let seen =
          save_seen create_id stringify b dump load caller
            (record (remounted create_id stringify b dump load v s) { saving = false }) in
        (seen.editor ≡ mounted create_id stringify b dump load v s.loaded)
        × (seen.loaded ≡ s.loaded)
        × (seen.saving ≡ false)
  unfolding remounted mounted handle_save mount
  seen_anew caller form_view s = elim (Bool-cases (suc s.instance_number == caller)) [
    | inl e ↦ rw e (refl, refl, refl)
    | inr e ↦ rw e (refl, refl, refl)
  ]
  seen_anew caller yaml_view s = (refl, refl, refl)

  -- A save that fails leaves the editor and what was loaded as they are. One that succeeds, after which
  -- the playbooks come back with another time, leaves a newly mounted editor of the same view: whatever
  -- was changed in the editor while the save was under way is gone.
  pub save_ended_lem :
      (caller : ℕ) (message : Text) (again : Option Loaded) (loaded : Loaded) (s : ConfigPage)
      → loaded.loaded_at ≢ s.loaded.loaded_at
      → let failed =
          (playbooks_saved create_id stringify b dump load caller (some message) again s).0 in
        let saved =
          (playbooks_saved create_id stringify b dump load caller none (some loaded) s).0 in
        (failed ≡ record s { saving = false })
        × (saved.editor ≡ mounted create_id stringify b dump load (view_of s.editor) loaded)
        × (saved.loaded ≡ loaded)
        × (saved.saving ≡ false)
  unfolding playbooks_saved
  save_ended_lem caller message again loaded s another =
      let (is_mounted, is_loaded, is_idle) =
        subst
          (λ t.
            let seen =
              save_seen create_id stringify b dump load caller (record t { saving = false }) in
            (seen.editor ≡ mounted create_id stringify b dump load (view_of s.editor) loaded)
            × (seen.loaded ≡ loaded)
            × (seen.saving ≡ false))
          (sym (arrived_anew loaded s another))
          (seen_anew caller (view_of s.editor) (record s { loaded = loaded })) in
      (refl, is_mounted, is_loaded, is_idle)

  -- Changing the view and changing it back leaves the form as it is mounted: the draft is lost.
  pub views_lem :
      (s : ConfigPage) (e : Editor)
      → s.editor ≡ form e
      → (set_playbook_view create_id stringify b dump load form_view
          (set_playbook_view create_id stringify b dump load yaml_view s)).editor
        ≡ form (mount create_id s.loaded.playbooks)
  unfolding set_playbook_view mounted
  views_lem s e is_form = rw is_form refl

result-fire_due :
    (now : ℕ) (l : List ℕ) (s : ConfigPage)
    → (fire_due now l s).reload_result
      ≡ (if any (λ due. leb due now) l then none else s.reload_result)
unfolding fire_due
result-fire_due now [] s = refl
result-fire_due now (due ∷ l) s =
    ground
      (arith, result-fire_due now l s, result-fire_due now l (record s { reload_result = none }))

-- The message of a reload that failed is gone as soon as a timeout of an earlier reload is due, however
-- short a time it was shown, and stays while none is due.
pub reload_ended-pass :
    (failed now : ℕ) (message : Text) (s : ConfigPage)
    → (pass now (reload_ended failed (some message) s)).reload_result ≡ (
        if any (λ due. leb due now) s.timeouts
        then none
        else some (codes "Reload failed: " ++ message))
unfolding reload_ended
reload_ended-pass failed now message s =
    result-fire_due now s.timeouts (reload_ended failed (some message) s)
