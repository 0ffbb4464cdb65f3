-- ===== src/Alerting/Form.antt =====
-- What frontend/components/dashboard/alerting-config-panel.tsx shows and enables: the fields of a
-- destination, the buttons, and the results of a test. `JSON.stringify` is an argument, for
-- destinations and for events.
use prefixd.Base.{
  ℕ, Bool, false, not, ◌&&◌, ◌||◌, Option, none, some, List, [], ◌∷◌, map, or_else, if◌then◌else◌,
  get_elem?,
}
use prefixd.Base.Text.{Text, codes, same}
use prefixd.Api.Types.{
  DestType, slack, discord, teams, telegram, pagerduty, opsgenie, generic, AlertingDestination,
  AlertingConfig, AlertingTestResult,
}
use prefixd.Alerting.{DraftDestination, Panel, strip_draft_id, is_editing}

abbrev pub event_types : List Text
event_types =
    codes "mitigation.created"
    ∷ codes "mitigation.escalated"
    ∷ codes "mitigation.withdrawn"
    ∷ codes "mitigation.expired"
    ∷ codes "config.reloaded"
    ∷ codes "guardrail.rejected"
    ∷ []

unfoldable pub dest_label : DestType → Text
dest_label slack = codes "Slack"
dest_label discord = codes "Discord"
dest_label teams = codes "Microsoft Teams"
dest_label telegram = codes "Telegram"
dest_label pagerduty = codes "PagerDuty"
dest_label opsgenie = codes "OpsGenie"
dest_label generic = codes "Generic Webhook"

-- The fields that the form of a destination has.
pub data Field : Type 0 where
  webhook_url channel bot_token chat_id routing_key events_url api_key region url secret : Field

unfoldable pub fields_of : DestType → List Field
fields_of slack = webhook_url ∷ channel ∷ []
fields_of discord = webhook_url ∷ []
fields_of teams = webhook_url ∷ []
fields_of telegram = bot_token ∷ chat_id ∷ []
fields_of pagerduty = routing_key ∷ events_url ∷ []
fields_of opsgenie = api_key ∷ region ∷ []
fields_of generic = url ∷ secret ∷ []

-- `dest[field]`, and `{ ...dest, [field]: value }`.
abbrev pub value_of : Field → AlertingDestination → Option Text
value_of webhook_url d = d.webhook_url
value_of channel d = d.channel
value_of bot_token d = d.bot_token
value_of chat_id d = d.chat_id
value_of routing_key d = d.routing_key
value_of events_url d = d.events_url
value_of api_key d = d.api_key
value_of region d = d.region
value_of url d = d.url
value_of secret d = d.secret

unfoldable pub set_field : Field → Text → AlertingDestination → AlertingDestination
set_field webhook_url t d = record d { webhook_url = some t }
set_field channel t d = record d { channel = some t }
set_field bot_token t d = record d { bot_token = some t }
set_field chat_id t d = record d { chat_id = some t }
set_field routing_key t d = record d { routing_key = some t }
set_field events_url t d = record d { events_url = some t }
set_field api_key t d = record d { api_key = some t }
set_field region t d = record d { region = some t }
set_field url t d = record d { url = some t }
set_field secret t d = record d { secret = some t }

-- `update` of the form.
unfoldable pub update : Field → Text → DraftDestination → DraftDestination
unfolding set_field
update field value d = record d { dest = set_field field value d.dest }

-- The text in an input; a region that is missing is shown as the first of the two.
unfoldable pub shown_value : Field → AlertingDestination → Text
shown_value region d = or_else d.region (codes "us")
shown_value field d = or_else (value_of field d) []

-- The type and the hint of an input for a secret that the daemon keeps to itself.
unfoldable pub is_masked : Field → AlertingDestination → Bool
is_masked field d = elim (value_of field d) [ none ↦ false | some t ↦ same t (codes "***") ]

module _ (stringify : List AlertingDestination → Text) (stringify_events : List Text → Text) where
  -- `hasChanges`; a draft without events, or no data, is no change.
  unfoldable pub has_changes : Option AlertingConfig → Panel → Bool
  has_changes none p = false
  has_changes (some config) p = elim p.draft [
    | none ↦ false
    | some drafts ↦ elim p.draft_events [
      | none ↦ false
      | some events ↦
          not (same (stringify (map strip_draft_id drafts)) (stringify config.destinations))
          || not (same (stringify_events events) (stringify_events config.events))
    ]
  ]

  unfoldable pub save_is_enabled : Option AlertingConfig → Panel → Bool
  unfolding has_changes
  save_is_enabled received p = is_editing p && (has_changes received p && not p.saving)

abbrev pub discard_is_enabled : Panel → Bool
discard_is_enabled p = is_editing p && not p.saving

-- The destinations that are listed: the draft's, or those of the configuration.
unfoldable pub listed : AlertingConfig → Panel → List AlertingDestination
listed config p = elim p.draft [
  | none ↦ config.destinations
  | some drafts ↦ map strip_draft_id drafts
]

-- The events that are shown: `draftEvents!` while editing, which throws where it is null.
unfoldable pub shown_events : AlertingConfig → Panel → Option (List Text)
shown_events config p = if is_editing p then p.draft_events else some config.events

-- The result that stands next to the destination at an index, where nothing is edited.
unfoldable pub result_at : Panel → ℕ → Option AlertingTestResult
result_at p i = if is_editing p then none else get_elem? (or_else p.test_results []) i
