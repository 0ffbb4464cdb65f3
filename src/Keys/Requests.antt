-- ===== src/Keys/Requests.antt =====
-- What the hooks of frontend/hooks/use-api.ts ask the daemon for. `JSON.stringify` and the
-- percent-encodings belong to the browser and are arguments.
use prefixd.Base.{Option, none, some, List, [], ◌∷◌, if◌then◌else◌}
use prefixd.Base.Text.{Text, codes, truthy}
use prefixd.Api.Params.{MitigationParams, PageParams, TimeseriesParams}
use prefixd.Api.Endpoints.{
  Request, get_health, get_health_detail, get_stats, get_safelist, get_pops, get_operators,
  get_config_settings, get_config_inventory, get_config_playbooks, get_alerting_config,
  get_mitigation, get_mitigations, get_events, get_audit_log, get_timeseries, get_dashboard_data,
  get_ip_history,
}
use prefixd.Keys.{Key, name, array, or_text, key_of}
use prefixd.Keys as Keys

-- A hook with what it is called with; an id or an address may be null.
pub data Call : Type 0 where
  health health_detail stats safelist pops dashboard operators : Call
  config_settings config_inventory config_playbooks alerting_config : Call
  mitigations : Option MitigationParams → Call
  events audit_log : Option PageParams → Call
  mitigation ip_history : Option Text → Call
  timeseries : TimeseriesParams → Call

abbrev stringified : {P : Type 0} → (P → Text) → Option P → Option Text
stringified stringify none = none
stringified stringify (some p) = some (stringify p)

module _ (stringify : MitigationParams → Text) (stringify_page : PageParams → Text) where
  -- The hook that is called.
  abbrev pub hook_of : Call → Keys.Hook
  hook_of health = Keys.health
  hook_of health_detail = Keys.health_detail
  hook_of stats = Keys.stats
  hook_of safelist = Keys.safelist
  hook_of pops = Keys.pops
  hook_of dashboard = Keys.dashboard
  hook_of operators = Keys.operators
  hook_of config_settings = Keys.config_settings
  hook_of config_inventory = Keys.config_inventory
  hook_of config_playbooks = Keys.config_playbooks
  hook_of alerting_config = Keys.alerting_config
  hook_of (mitigations p) = Keys.mitigations (stringified stringify p)
  hook_of (events p) = Keys.events (stringified stringify_page p)
  hook_of (audit_log p) = Keys.audit_log (stringified stringify_page p)
  hook_of (mitigation id) = Keys.mitigation id
  hook_of (ip_history ip) = Keys.ip_history ip
  hook_of (timeseries p) = Keys.timeseries p.metric p.range p.bucket

module _ (form_encode encode_uri_component : Text → Text) where
  -- What the fetcher of a hook sends; where the id or the address is missing, it is not called.
  unfoldable pub requests_of : Call → List Request
  unfolding get_mitigation get_mitigations get_events get_audit_log get_timeseries
      get_dashboard_data get_ip_history
  requests_of health = get_health ∷ []
  requests_of health_detail = get_health_detail ∷ []
  requests_of stats = get_stats ∷ []
  requests_of safelist = get_safelist ∷ []
  requests_of pops = get_pops ∷ []
  requests_of dashboard = get_dashboard_data form_encode
  requests_of operators = get_operators ∷ []
  requests_of config_settings = get_config_settings ∷ []
  requests_of config_inventory = get_config_inventory ∷ []
  requests_of config_playbooks = get_config_playbooks ∷ []
  requests_of alerting_config = get_alerting_config ∷ []
  requests_of (mitigations p) = get_mitigations form_encode p ∷ []
  requests_of (events p) = get_events form_encode p ∷ []
  requests_of (audit_log p) = get_audit_log form_encode p ∷ []
  requests_of (mitigation none) = []
  requests_of (mitigation (some id)) = if truthy id then get_mitigation id ∷ [] else []
  requests_of (ip_history none) = []
  requests_of (ip_history (some ip)) =
      if truthy ip then get_ip_history form_encode encode_uri_component ip none ∷ [] else []
  requests_of (timeseries p) = get_timeseries form_encode (some p) ∷ []

-- The call with the values that the key of the time series has for what is missing.
abbrev pub filled : Call → Call
filled (timeseries p) = timeseries (record {
  metric = some (or_text p.metric (codes "mitigations"));
  range = some (or_text p.range (codes "24h"));
  bucket = some (or_text p.bucket (codes "1h"));
})
filled call = call
