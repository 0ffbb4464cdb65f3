-- ===== src/Playbook/Draft.antt =====
-- The drafts of frontend/components/dashboard/playbook-editor.tsx and the changes to their list. The
-- answers of `createId`, which asks the browser for a random UUID, are a function of the number of
-- the call.
pub mod Laws
use prefixd.Base.{
  ℕ, zero, suc, ◌+◌, ◌<◌, Bool, true, false, not, Option, none, some, List, [], ◌∷◌, ◌++◌, map,
  if◌then◌else◌, leb, length, or_else,
}
use prefixd.Base.Text.{Text, codes, same}
use prefixd.Playbook.{Step, Match, ConfigPlaybook}
use prefixd.Base.Numbers.{Number, finite}

pub record DraftStep : Type 0 where
  pub id : Text
  pub step : Step

pub record DraftPlaybook : Type 0 where
  pub id : Text
  pub name : Text
  pub match_rule : Match
  pub steps : List DraftStep

module _ (create_id : ℕ → Text) where
  -- `emptyStep()` with the call of this number.
  unfoldable pub empty_step : ℕ → DraftStep
  empty_step n = record {
    id = create_id n;
    step = record {
      action = codes "police";
      rate_bps = some (finite false 5000000 0);
      ttl_seconds = finite false 120 0;
      require_confidence_at_least = none;
      require_persistence_seconds = none;
    };
  }

  unfoldable pub empty_playbook : ℕ → DraftPlaybook
  unfolding empty_step
  empty_playbook n = record {
    id = create_id n;
    name = [];
    match_rule = record { vector = codes "udp_flood"; require_top_ports = none };
    steps = empty_step (suc n) ∷ [];
  }

  -- The steps of a draft, and the number of the next call.
  unfoldable pub draft_steps : ℕ → List Step → List DraftStep × ℕ
  draft_steps n [] = ([], n)
  draft_steps n (s ∷ steps) =
      let (rest, next) = draft_steps (suc n) steps in
      (record { id = create_id n; step = s } ∷ rest, next)

  unfoldable pub to_draft : ℕ → List ConfigPlaybook → List DraftPlaybook × ℕ
  unfolding draft_steps
  to_draft n [] = ([], n)
  to_draft n (pb ∷ pbs) =
      let (steps, after) = draft_steps (suc n) pb.steps in
      let (rest, next) = to_draft after pbs in
      (
        record { id = create_id n; name = pb.name; match_rule = pb.match_rule; steps = steps }
            ∷ rest,
        next,
      )

unfoldable pub to_api_playbooks : List DraftPlaybook → List ConfigPlaybook
to_api_playbooks [] = []
to_api_playbooks (d ∷ ds) =
    let steps : List Step = map (λ s. s.step) d.steps in
    record { name = d.name; match_rule = d.match_rule; steps = steps } ∷ to_api_playbooks ds

-- `list.map((x, i) => (i === index ? updated : x))`.
unfoldable pub replace_at : {A : Type 0} → ℕ → A → List A → List A
replace_at index updated [] = []
replace_at zero updated (x ∷ l) = updated ∷ l
replace_at (suc index) updated (x ∷ l) = x ∷ replace_at index updated l

-- `list.filter((_, i) => i !== index)`.
unfoldable pub remove_at : {A : Type 0} → ℕ → List A → List A
remove_at index [] = []
remove_at zero (x ∷ l) = l
remove_at (suc index) (x ∷ l) = x ∷ remove_at index l

-- What the buttons and fields of a step make of its playbook.
unfoldable pub change_step : ℕ → DraftStep → DraftPlaybook → DraftPlaybook
unfolding replace_at
change_step index updated d = record d { steps = replace_at index updated d.steps }

unfoldable pub remove_step : ℕ → DraftPlaybook → DraftPlaybook
unfolding remove_at
remove_step index d =
    if leb (length d.steps) 1 then d else record d { steps = remove_at index d.steps }

unfoldable pub add_step : DraftStep → DraftPlaybook → DraftPlaybook
add_step new d = record d { steps = d.steps ++ (new ∷ []) }

-- Selecting an action in a step.
unfoldable pub select_action : Text → Step → Step
select_action action step = record step {
  action = action;
  rate_bps =
      if same action (codes "discard")
      then none
      else some (or_else step.rate_bps (finite false 5000000 0));
}

pub record Editor : Type 0 where
  pub draft : List DraftPlaybook
  pub editing_index : Option ℕ
  -- The number of the next call of `createId`.
  pub next_id : ℕ

module _ (create_id : ℕ → Text) where
  -- The editor when it is mounted.
  unfoldable pub mount : List ConfigPlaybook → Editor
  unfolding to_draft
  mount initial_playbooks =
      let (drafts, next) = to_draft create_id 0 initial_playbooks in
      record { draft = drafts; editing_index = none; next_id = next }

  unfoldable pub add_playbook : Editor → Editor
  unfolding empty_playbook
  add_playbook s = record {
    draft = s.draft ++ (empty_playbook create_id s.next_id ∷ []);
    editing_index = some (length s.draft);
    next_id = suc (suc s.next_id);
  }

  unfoldable pub handle_discard : List ConfigPlaybook → Editor → Editor
  unfolding to_draft
  handle_discard initial_playbooks s =
      let (drafts, next) = to_draft create_id s.next_id initial_playbooks in
      record { draft = drafts; editing_index = none; next_id = next }

unfoldable pub update_playbook : ℕ → DraftPlaybook → Editor → Editor
unfolding replace_at
update_playbook index updated s = record s { draft = replace_at index updated s.draft }

unfoldable pub remove_playbook : ℕ → Editor → Editor
unfolding remove_at
remove_playbook index s = record s { draft = remove_at index s.draft; editing_index = none }

-- The pencil of a card, and the end of editing.
abbrev pub edit : Option ℕ → Editor → Editor
edit index s = record s { editing_index = index }

-- `handleSave`, by whether `onSave` resolved.
unfoldable pub handle_save : Bool → Editor → Editor
handle_save resolved s = if resolved then record s { editing_index = none } else s

-- What can happen to a mounted editor.
pub data Change (create_id : ℕ → Text) (s : Editor) : Editor → Type 0 where
  updates :
      (index : ℕ) (updated : DraftPlaybook) → Change create_id s (update_playbook index updated s)
  removes : (index : ℕ) → Change create_id s (remove_playbook index s)
  adds : Change create_id s (add_playbook create_id s)
  discards : (pbs : List ConfigPlaybook) → Change create_id s (handle_discard create_id pbs s)
  -- A card has a pencil where there is a playbook.
  edits : (index : ℕ) → index < length s.draft → Change create_id s (edit (some index) s)
  done : Change create_id s (edit none s)
  saves : (resolved : Bool) → Change create_id s (handle_save resolved s)

pub data Changes (create_id : ℕ → Text) (s : Editor) : Editor → Type 0 where
  nothing : Changes create_id s s
  further : {t u : Editor} → Changes create_id s t → Change create_id t u → Changes create_id s u
