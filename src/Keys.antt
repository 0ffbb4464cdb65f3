-- ===== src/Keys.antt =====
-- The cache keys and the refresh settings of the data hooks in frontend/hooks/use-api.ts.
-- `JSON.stringify(params)` is a text that the caller gives; `mock` is `MOCK_MODE`.
pub mod Mock
pub mod Requests
pub mod Sharing
mod Tests
use prefixd.Base.{ℕ, Bool, Option, none, some, List, [], ◌∷◌, if◌then◌else◌}
use prefixd.Base.Text.{Text, codes, truthy}

-- A key of the cache: a string, or an array of strings.
pub data Key : Type 0 where
  name : Text → Key
  array : List Text → Key

pub data Hook : Type 0 where
  health health_detail stats safelist pops dashboard operators : Hook
  config_settings config_inventory config_playbooks alerting_config : Hook
  mitigations events audit_log : Option Text → Hook
  mitigation ip_history : Option Text → Hook
  timeseries : (metric range bucket : Option Text) → Hook

-- `params ? [family, JSON.stringify(params)] : family`.
abbrev pub params_key : Text → Option Text → Key
params_key family none = name family
params_key family (some params) = array (family ∷ params ∷ [])

-- `id ? [family, id] : null`; `null` disables the hook.
abbrev pub id_key : Text → Option Text → Option Key
id_key family none = none
id_key family (some id) = if truthy id then some (array (family ∷ id ∷ [])) else none

-- `value || fallback`.
abbrev pub or_text : Option Text → Text → Text
or_text none fallback = fallback
or_text (some value) fallback = if truthy value then value else fallback

unfoldable pub key_of : Hook → Option Key
key_of health = some (name (codes "health"))
key_of health_detail = some (name (codes "health-detail"))
key_of stats = some (name (codes "stats"))
key_of safelist = some (name (codes "safelist"))
key_of pops = some (name (codes "pops"))
key_of dashboard = some (name (codes "dashboard"))
key_of operators = some (name (codes "operators"))
key_of config_settings = some (name (codes "config-settings"))
key_of config_inventory = some (name (codes "config-inventory"))
key_of config_playbooks = some (name (codes "config-playbooks"))
key_of alerting_config = some (name (codes "alerting-config"))
key_of (mitigations params) = some (params_key (codes "mitigations") params)
key_of (events params) = some (params_key (codes "events") params)
key_of (audit_log params) = some (params_key (codes "audit") params)
key_of (mitigation id) = id_key (codes "mitigation") id
key_of (ip_history ip) = id_key (codes "ip-history") ip
key_of (timeseries metric range bucket) = some (
    array (
      codes "timeseries"
      ∷ or_text metric (codes "mitigations")
      ∷ or_text range (codes "24h")
      ∷ or_text bucket (codes "1h")
      ∷ []))

abbrev pub refresh_interval : ℕ
refresh_interval = 5000

-- `refreshInterval` in milliseconds; 0 is no polling.
unfoldable pub refresh : Bool → Hook → ℕ
refresh mock operators = 0
refresh mock config_settings = 0
refresh mock config_inventory = 0
refresh mock config_playbooks = 0
refresh mock alerting_config = 0
refresh mock (ip_history ip) = 0
refresh mock pops = if mock then 0 else 30000
refresh mock (timeseries m r b) = if mock then 0 else 30000
refresh mock hook = if mock then 0 else refresh_interval
