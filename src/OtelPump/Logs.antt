-- ===== src/OtelPump/Logs.antt =====
-- cmd/otelpump/otelpump.go: the log records that are made of the events of a group.
use i_drac_telemetry_referen.Common.{
  ℕ, Option, none, some, List, [], ◌∷◌, String, Bytes, if◌then◌else◌,
}
use i_drac_telemetry_referen.Common.Ascii.{to_lower, trim_space}
use i_drac_telemetry_referen.Common.Int.{ℤ, to_bits}
use i_drac_telemetry_referen.Common.Text.{codes}
use i_drac_telemetry_referen.Json.{JsonText, bytes_eq}
use i_drac_telemetry_referen.Databus.Group.{EventValue, DataGroup, marshal_event}
use i_drac_telemetry_referen.OtelPump.{
  Readings, KeyValue, kv, get_host_attributes, or_empty, parse_nanos,
}

-- `logsv1.SeverityNumber`
pub data SeverityNumber : Type 0 where
  unspecified info warn error : SeverityNumber

abbrev severity_of : Bytes → SeverityNumber
severity_of s =
    if bytes_eq s (codes "ok")
    then info
    else if bytes_eq s (codes "warning")
    then warn
    else if bytes_eq s (codes "critical")
    then error
    else unspecified

unfoldable pub map_severity : String → SeverityNumber
unfolding bytes_eq to_lower trim_space
map_severity s = severity_of (to_lower (trim_space (codes s)))

pub record InstrumentationScope : Type 0 where
  pub name : String
  pub version : String

module _ (readings : Readings) (json : JsonText) where
  open json use {Text, print}

  pub record LogRecord : Type 0 where
    pub time_unix_nano : ℕ
    pub observed_time_unix_nano : ℕ
    pub severity_text : String
    pub severity_number : SeverityNumber
    pub attributes : List KeyValue
    pub body : Text

  pub record ScopeLogs : Type 0 where
    pub scope : InstrumentationScope
    pub log_records : List LogRecord

  -- The resource is nil where there is no record.
  pub record ResourceLogs : Type 0 where
    pub resource : Option (List KeyValue)
    pub scope_logs : List ScopeLogs

  abbrev pub record_of : EventValue → ℤ → LogRecord
  record_of event time = record {
    time_unix_nano = to_bits time;
    observed_time_unix_nano = to_bits time;
    severity_text = event.message_severity;
    severity_number = map_severity event.message_severity;
    attributes =
        kv "event.data.type" "telemetry"
        ∷ kv "event.object.type" event.event_type
        ∷ kv "event.object.id" event.event_id
        ∷ [];
    body = print (marshal_event event);
  }

  abbrev add_record : EventValue → Option ℤ → List LogRecord → List LogRecord
  add_record event none rest = rest
  add_record event (some time) rest = record_of event time ∷ rest

  -- The loop over the events
  unfoldable pub records_of : List EventValue → List LogRecord
  unfolding parse_nanos map_severity marshal_event
  records_of [] = []
  records_of (event ∷ events) =
      add_record event (parse_nanos readings event.event_timestamp) (records_of events)

  abbrev pub logs_of : DataGroup → List LogRecord → ResourceLogs
  logs_of group [] = record { resource = none; scope_logs = [] }
  logs_of group (r ∷ rs) = record {
    resource = some (get_host_attributes group);
    scope_logs =
        record {
          scope = record { name = "Lifecycle Logs"; version = "1.0.0" };
          log_records = r ∷ rs;
        }
        ∷ [];
  }

  -- `toOTLPLogs`
  unfoldable pub to_otlp_logs : DataGroup → ResourceLogs
  unfolding records_of get_host_attributes
  to_otlp_logs group = logs_of group (records_of (or_empty group.events))
