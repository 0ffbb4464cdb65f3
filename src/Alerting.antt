-- ===== src/Alerting.antt =====
-- The settings of the alerts, frontend/components/dashboard/alerting-config-panel.tsx: the draft of the
-- destinations and of the events, its changes, saving and testing. The answers of `newId` are a
-- function of the number of the call; `toUpperCase` belongs to the browser and is an argument.
pub mod Draft
pub mod Editing
pub mod Form
pub mod Life
pub mod Results
mod Tests
use prefixd.Base.{
  ℕ, suc, ◌+◌, ◌-◌, ◌<◌, Bool, true, false, not, ◌&&◌, Option, none, some, List, [], ◌∷◌, ◌++◌, map,
  if◌then◌else◌, ◌==◌, ltb, any, keep, length, or_else, is_some,
}
use prefixd.Base.Text.{Text, codes, same, truthy}
use prefixd.Base.Http.{Result, ok, err}
use prefixd.Playbook.Draft.{replace_at, remove_at}
use prefixd.Api.Types.{
  DestType, slack, discord, teams, telegram, pagerduty, opsgenie, generic, AlertingDestination,
  AlertingConfig, AlertingTestResult,
}
use prefixd.Api.Endpoints.{Request, update_alerting_config, test_alerting}

pub record DraftDestination : Type 0 where
  pub id : Text
  pub dest : AlertingDestination

abbrev pub no_fields : DestType → AlertingDestination
no_fields kind = record {
  kind = kind;
  webhook_url = none;
  channel = none;
  chat_id = none;
  bot_token = none;
  routing_key = none;
  events_url = none;
  api_key = none;
  region = none;
  url = none;
  secret = none;
  headers = none;
}

-- The fields of `emptyDest(type)` but for its id.
unfoldable pub empty_fields : DestType → AlertingDestination
empty_fields slack = record (no_fields slack) { webhook_url = some []; channel = some [] }
empty_fields discord = record (no_fields discord) { webhook_url = some [] }
empty_fields teams = record (no_fields teams) { webhook_url = some [] }
empty_fields telegram = record (no_fields telegram) { bot_token = some []; chat_id = some [] }
empty_fields pagerduty = record (no_fields pagerduty) {
  routing_key = some [];
  events_url = some (codes "https://events.pagerduty.com/v2/enqueue");
}
empty_fields opsgenie = record (no_fields opsgenie) {
  api_key = some [];
  region = some (codes "us");
}
empty_fields generic = record (no_fields generic) { url = some []; secret = some [] }

unfoldable pub empty_dest : Text → DestType → DraftDestination
unfolding empty_fields
empty_dest id kind = record { id = id; dest = empty_fields kind }

abbrev pub strip_draft_id : DraftDestination → AlertingDestination
strip_draft_id d = d.dest

abbrev pub filled : Option Text → (Text → Text) → Text
filled none f = []
filled (some t) f = if truthy t then f t else []

-- `destSummary`.
unfoldable pub dest_summary : (Text → Text) → AlertingDestination → Text
dest_summary to_upper_case d = elim d.kind [
  | slack ↦ filled d.channel (λ t. t)
  | telegram ↦ filled d.chat_id (λ t. codes "chat " ++ t)
  | pagerduty ↦ filled d.events_url (λ t. t)
  | opsgenie ↦ filled d.region (λ t. to_upper_case t ++ codes " region")
  | generic ↦ filled d.url (λ t. t)
  | _ ↦ []
]

unfoldable pub is_secret_field : Text → Bool
is_secret_field field =
    any (λ name. same name field)
      (codes "webhook_url"
        ∷ codes "bot_token"
        ∷ codes "routing_key"
        ∷ codes "api_key"
        ∷ codes "secret"
        ∷ [])

pub record Panel : Type 0 where
  pub testing : Bool
  pub test_results : Option (List AlertingTestResult)
  pub test_error : Option Text
  pub saving : Bool
  pub draft : Option (List DraftDestination)
  pub draft_events : Option (List Text)
  pub editing_index : Option ℕ
  pub adding_type : Option DestType
  -- The number of the next call of `newId`.
  pub next_id : ℕ

abbrev pub initial : Panel
initial = record {
  testing = false;
  test_results = none;
  test_error = none;
  saving = false;
  draft = none;
  draft_events = none;
  editing_index = none;
  adding_type = none;
  next_id = 0;
}

abbrev pub is_editing : Panel → Bool
is_editing p = is_some p.draft

abbrev pub to_drafts : (ℕ → Text) → ℕ → List AlertingDestination → List DraftDestination
to_drafts new_id n [] = []
to_drafts new_id n (d ∷ l) = record { id = new_id n; dest = d } ∷ to_drafts new_id (suc n) l

-- `initDraft`; `none` is the data that has not arrived.
unfoldable pub init_draft : (ℕ → Text) → Option AlertingConfig → Panel → Panel
init_draft new_id none p = p
init_draft new_id (some config) p = record p {
  draft = some (to_drafts new_id p.next_id config.destinations);
  draft_events = some config.events;
  next_id = p.next_id + length config.destinations;
}

unfoldable pub discard_draft : Panel → Panel
discard_draft p = record p {
  draft = none;
  draft_events = none;
  editing_index = none;
  adding_type = none;
}

-- `handleSave` up to its request.
unfoldable pub handle_save : Panel → Panel × Option Request
handle_save p = elim p.draft [
  | none ↦ (p, none)
  | some drafts ↦ elim p.draft_events [
    | none ↦ (p, none)
    | some events ↦
        let config : AlertingConfig = record {
          destinations = map strip_draft_id drafts;
          events = events;
        } in
        (record p { saving = true }, some (update_alerting_config config))
  ]
]

-- The message that is shown when saving has ended.
pub data Toast : Type 0 where
  success error : Text → Toast

-- The end of `handleSave`: what was thrown by the request or by the revalidation, if anything was.
unfoldable pub save_ended : Option Text → Panel → Panel × Toast
unfolding discard_draft
save_ended none p = (
  record (discard_draft p) { saving = false },
  success (codes "Alerting config saved and reloaded"),
)
save_ended (some message) p = (record p { saving = false }, error message)

unfoldable pub handle_test : Panel → Panel × Request
handle_test p = (record p { testing = true; test_results = none; test_error = none }, test_alerting)

unfoldable pub test_ended : Result (List AlertingTestResult) → Panel → Panel
test_ended (ok results) p = record p { testing = false; test_results = some results }
test_ended (err message) p = record p { testing = false; test_error = some message }

abbrev pub current_draft : Panel → List DraftDestination
current_draft p = or_else p.draft []

unfoldable pub add_dest : (ℕ → Text) → DestType → Panel → Panel
unfolding empty_dest
add_dest new_id kind p = record p {
  draft = some (current_draft p ++ (empty_dest (new_id p.next_id) kind ∷ []));
  editing_index = some (length (current_draft p));
  adding_type = none;
  next_id = suc p.next_id;
}

-- The index that is edited after the destination at an index was removed.
unfoldable pub index_after : ℕ → Option ℕ → Option ℕ
index_after removed none = none
index_after removed (some i) =
    if i == removed then none else if ltb removed i then some (i - 1) else some i

unfoldable pub remove_dest : ℕ → Panel → Panel
unfolding remove_at index_after
remove_dest index p = record p {
  draft = some (remove_at index (current_draft p));
  editing_index = index_after index p.editing_index;
}

unfoldable pub update_dest : ℕ → DraftDestination → Panel → Panel
unfolding replace_at
update_dest index updated p = record p { draft = some (replace_at index updated (current_draft p)) }

unfoldable pub toggle_event : Text → Panel → Panel
toggle_event event p = record p {
  draft_events = elim p.draft_events [
    | none ↦ none
    | some events ↦
        if any (λ e. same e event) events
        then some (keep (λ e. not (same e event)) events)
        else some (events ++ (event ∷ []))
  ];
}
