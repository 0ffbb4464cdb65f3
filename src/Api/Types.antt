-- ===== src/Api/Types.antt =====
-- The interfaces of frontend/lib/api.ts that the requests and the pages read. A `Record<string, …>` is
-- a list of entries; what is optional or null is an `Option`.
use prefixd.Base.{ℕ, Bool, Option, List}
use prefixd.Base.Text.{Text}
use prefixd.Base.Numbers.{Number}

pub record IngestEventRequest : Type 0 where
  pub victim_ip : Text
  pub vector : Text
  pub source : Text
  pub timestamp : Text
  -- `undefined` is the outer `none`, `null` the inner one.
  pub bps : Option (Option Number)
  pub pps : Option (Option Number)
  pub top_dst_ports : Option (List Number)
  pub confidence : Option (Option Number)
  pub action : Option Text

pub record EventResponse : Type 0 where
  pub event_id : Text
  pub mitigation_id : Option Text
  pub status : Text

pub data Role : Type 0 where
  admin operator viewer : Role

pub record OperatorInfo : Type 0 where
  pub operator_id : Text
  pub username : Text
  pub role : Role
  pub created_at : Text
  pub created_by : Option Text
  pub last_login_at : Option Text

pub record ConfigAsset : Type 0 where
  pub ip : Text
  pub role : Option Text

pub record ConfigService : Type 0 where
  pub service_id : Text
  pub name : Text
  pub assets : List ConfigAsset
  pub udp_ports : Option (List ℕ)
  pub tcp_ports : Option (List ℕ)

pub record ConfigCustomer : Type 0 where
  pub customer_id : Text
  pub name : Text
  pub prefixes : List Text
  pub policy_profile : Text
  pub services : List ConfigService

pub record IpHistoryEvent : Type 0 where
  pub event_id : Text
  pub source : Text
  pub event_timestamp : Text
  pub ingested_at : Text
  pub vector : Text
  pub bps : Option Number
  pub pps : Option Number
  pub confidence : Option Number

pub data DestType : Type 0 where
  slack discord teams telegram pagerduty opsgenie generic : DestType

pub record AlertingDestination : Type 0 where
  pub kind : DestType
  pub webhook_url : Option Text
  pub channel : Option Text
  pub chat_id : Option Text
  pub bot_token : Option Text
  pub routing_key : Option Text
  pub events_url : Option Text
  pub api_key : Option Text
  pub region : Option Text
  pub url : Option Text
  pub secret : Option Text
  pub headers : Option (List (Text × Text))

pub record AlertingConfig : Type 0 where
  pub destinations : List AlertingDestination
  pub events : List Text

pub record AlertingTestResult : Type 0 where
  pub destination : Text
  -- Whether the status is "ok".
  pub is_ok : Bool
  pub error : Option Text
