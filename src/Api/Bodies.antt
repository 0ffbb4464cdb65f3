-- ===== src/Api/Bodies.antt =====
-- The bodies of the requests in frontend/lib/api.ts.
use prefixd.Base.{List, [], ◌∷◌}
use prefixd.Base.Text.{Text, codes}
use prefixd.Base.Json.{
  Json, boolean, number, string, array, object, Fields, end, field, optional, nullable, items,
}
use prefixd.Playbook.{Step, ConfigPlaybook}
use prefixd.Api.Types.{
  IngestEventRequest, Role, admin, operator, viewer, DestType, slack, discord, teams, telegram,
  pagerduty, opsgenie, generic, AlertingDestination,
}

abbrev pub role_text : Role → Text
role_text admin = codes "admin"
role_text operator = codes "operator"
role_text viewer = codes "viewer"

abbrev pub kind_text : DestType → Text
kind_text slack = codes "slack"
kind_text discord = codes "discord"
kind_text teams = codes "teams"
kind_text telegram = codes "telegram"
kind_text pagerduty = codes "pagerduty"
kind_text opsgenie = codes "opsgenie"
kind_text generic = codes "generic"

-- The objects in the bodies, with their fields in the order of the interfaces.
unfoldable pub step_json : Step → Json
step_json s = object (
    field (codes "action") (string s.action) (
      optional (codes "rate_bps") number s.rate_bps (
        field (codes "ttl_seconds") (number s.ttl_seconds) (
          optional (codes "require_confidence_at_least") number s.require_confidence_at_least (
            optional (codes "require_persistence_seconds") number s.require_persistence_seconds
              end)))))

unfoldable pub playbook_json : ConfigPlaybook → Json
unfolding step_json
playbook_json pb = object (
    field (codes "name") (string pb.name) (
      field (codes "match")
        (object (
          field (codes "vector") (string pb.match_rule.vector)
            (optional (codes "require_top_ports") boolean pb.match_rule.require_top_ports end)))
        (field (codes "steps") (array (items step_json pb.steps)) end)))

abbrev pub header_fields : List (Text × Text) → Fields
header_fields [] = end
header_fields ((name, value) ∷ l) = field name (string value) (header_fields l)

unfoldable pub destination_json : AlertingDestination → Json
destination_json d = object (
    field (codes "type") (string (kind_text d.kind)) (
      optional (codes "webhook_url") string d.webhook_url (
        optional (codes "channel") string d.channel (
          optional (codes "chat_id") string d.chat_id (
            optional (codes "bot_token") string d.bot_token (
              optional (codes "routing_key") string d.routing_key (
                optional (codes "events_url") string d.events_url (
                  optional (codes "api_key") string d.api_key (
                    optional (codes "region") string d.region (
                      optional (codes "url") string d.url (
                        optional (codes "secret") string d.secret (
                          optional (codes "headers") (λ h. object (header_fields h)) d.headers
                            end))))))))))))

unfoldable pub event_json : IngestEventRequest → Json
event_json e = object (
    field (codes "victim_ip") (string e.victim_ip) (
      field (codes "vector") (string e.vector) (
        field (codes "source") (string e.source) (
          field (codes "timestamp") (string e.timestamp) (
            optional (codes "bps") (nullable number) e.bps (
              optional (codes "pps") (nullable number) e.pps (
                optional (codes "top_dst_ports") (λ l. array (items number l)) e.top_dst_ports
                  (optional (codes "confidence") (nullable number) e.confidence
                    (optional (codes "action") string e.action end)))))))))
