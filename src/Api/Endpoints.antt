-- ===== src/Api/Endpoints.antt =====
-- The requests of frontend/lib/api.ts: the method, the address and the body that each of its functions
-- gives to `fetchApi`. The percent-encodings of the browser are arguments.
pub mod Laws
use prefixd.Base.{
  ℕ, Bool, true, false, not, ◌&&◌, Option, none, some, List, [], ◌∷◌, ◌++◌, map, if◌then◌else◌,
  ◌==◌, all, ltb, length,
}
use prefixd.Base.Text.{Text, codes, same}
use prefixd.Base.Decimal.{to_decimal}
use prefixd.Base.Split.{join}
use prefixd.Base.Numbers.{Number}
use prefixd.Base.Json.{
  Json, null, boolean, number, string, array, object, Fields, end, field, optional, nullable, items,
}
use prefixd.Playbook.{Step, ConfigPlaybook}
use prefixd.Api.Types.{IngestEventRequest, Role, AlertingConfig}
use prefixd.Api.Query.{Entry, entry_if, with_query}
use prefixd.Api.Params.{
  shown, MitigationParams, PageParams, TimeseriesParams, mitigation_entries, page_entries,
  timeseries_entries,
}
use prefixd.Api.Bodies.{role_text, playbook_json, destination_json, event_json}

pub record Request : Type 0 where
  pub method : Text
  pub url : Text
  pub body : Option Json

abbrev pub api_base : Text
api_base = codes "/api/prefixd"

-- `fetchApi(endpoint)`.
abbrev pub get : Text → Request
get endpoint = record { method = codes "GET"; url = api_base ++ endpoint; body = none }

abbrev pub send : Text → Text → Option Json → Request
send method endpoint body = record { method = method; url = api_base ++ endpoint; body = body }

-- `bgp_session_up` of `getHealthDetail`, by the states of the sessions.
unfoldable pub bgp_session_up : List Text → Bool
bgp_session_up sessions =
    ltb 0 (length sessions) && all (λ s. same s (codes "established")) sessions

abbrev pub get_health : Request
get_health = get (codes "/v1/health")

abbrev pub get_health_detail : Request
get_health_detail = get (codes "/v1/health/detail")

abbrev pub get_stats : Request
get_stats = get (codes "/v1/stats")

abbrev pub get_safelist : Request
get_safelist = get (codes "/v1/safelist")

abbrev pub get_pops : Request
get_pops = get (codes "/v1/pops")

abbrev pub get_operators : Request
get_operators = get (codes "/v1/operators")

abbrev pub get_config_settings : Request
get_config_settings = get (codes "/v1/config/settings")

abbrev pub get_config_inventory : Request
get_config_inventory = get (codes "/v1/config/inventory")

abbrev pub get_config_playbooks : Request
get_config_playbooks = get (codes "/v1/config/playbooks")

abbrev pub get_alerting_config : Request
get_alerting_config = get (codes "/v1/config/alerting")

unfoldable pub get_mitigation : Text → Request
get_mitigation id = get (codes "/v1/mitigations/" ++ id)

unfoldable pub withdraw_mitigation : (id reason operator_id : Text) → Request
withdraw_mitigation id reason operator_id =
    send (codes "POST") (codes "/v1/mitigations/" ++ (id ++ codes "/withdraw")) (
      some (
        object (
          field (codes "reason") (string reason)
            (field (codes "operator_id") (string operator_id) end))))

unfoldable pub ingest_event : IngestEventRequest → Request
unfolding event_json
ingest_event e = send (codes "POST") (codes "/v1/events") (some (event_json e))

unfoldable pub add_safelist : (prefix reason operator_id : Text) → Request
add_safelist prefix reason operator_id = send (codes "POST") (codes "/v1/safelist") (
    some (
      object (
        field (codes "prefix") (string prefix) (
          field (codes "reason") (string reason)
            (field (codes "operator_id") (string operator_id) end)))))

unfoldable pub reload_config : Request
reload_config = send (codes "POST") (codes "/v1/config/reload") none

unfoldable pub create_operator : (username password : Text) → Role → Request
create_operator username password role = send (codes "POST") (codes "/v1/operators") (
    some (
      object (
        field (codes "username") (string username) (
          field (codes "password") (string password)
            (field (codes "role") (string (role_text role)) end)))))

unfoldable pub delete_operator : Text → Request
delete_operator id = send (codes "DELETE") (codes "/v1/operators/" ++ id) none

unfoldable pub change_password : (id new_password : Text) → Request
change_password id new_password =
    send (codes "PUT") (codes "/v1/operators/" ++ (id ++ codes "/password"))
      (some (object (field (codes "new_password") (string new_password) end)))

unfoldable pub update_playbooks : List ConfigPlaybook → Request
unfolding playbook_json
update_playbooks playbooks =
    send (codes "PUT") (codes "/v1/config/playbooks")
      (some (object (field (codes "playbooks") (array (items playbook_json playbooks)) end)))

unfoldable pub test_alerting : Request
test_alerting = send (codes "POST") (codes "/v1/config/alerting/test") none

unfoldable pub update_alerting_config : AlertingConfig → Request
unfolding destination_json
update_alerting_config config = send (codes "PUT") (codes "/v1/config/alerting") (
    some (
      object (
        field (codes "destinations") (array (items destination_json config.destinations))
          (field (codes "events") (array (items string config.events)) end))))

module _ (form_encode : Text → Text) where
  -- The parameters, or none of them where `params` is not given.
  abbrev pub given : {P : Type 0} → (P → List Entry) → Option P → List Entry
  given entries none = []
  given entries (some p) = entries p

  unfoldable pub get_mitigations : Option MitigationParams → Request
  unfolding with_query mitigation_entries
  get_mitigations params =
      get (with_query form_encode (codes "/v1/mitigations") (given mitigation_entries params))

  unfoldable pub get_events : Option PageParams → Request
  unfolding with_query page_entries
  get_events params = get (with_query form_encode (codes "/v1/events") (given page_entries params))

  unfoldable pub get_audit_log : Option PageParams → Request
  unfolding with_query page_entries
  get_audit_log params =
      get (with_query form_encode (codes "/v1/audit") (given page_entries params))

  unfoldable pub get_timeseries : Option TimeseriesParams → Request
  unfolding with_query timeseries_entries
  get_timeseries params =
      get (with_query form_encode (codes "/v1/stats/timeseries") (given timeseries_entries params))

  -- The requests that `getDashboardData` makes together.
  unfoldable pub get_dashboard_data : List Request
  unfolding get_mitigations
  get_dashboard_data =
      get_health_detail
      ∷ get_stats
      ∷ get_mitigations (
          some (record {
            status = some (codes "active" ∷ codes "escalated" ∷ []);
            customer_id = none;
            pop = none;
            limit = some 100;
            offset = none;
          }))
      ∷ []

unfoldable pub remove_safelist : (encode_uri_component : Text → Text) → Text → Request
remove_safelist encode_uri_component prefix =
    send (codes "DELETE") (codes "/v1/safelist/" ++ encode_uri_component prefix) none

unfoldable pub get_ip_history :
    (form_encode encode_uri_component : Text → Text) → Text → Option ℕ → Request
unfolding with_query entry_if
get_ip_history form_encode encode_uri_component ip limit = get (
    with_query form_encode (codes "/v1/ip/" ++ (encode_uri_component ip ++ codes "/history"))
      (entry_if (codes "limit") (shown limit) []))
