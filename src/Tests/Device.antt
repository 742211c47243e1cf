-- ===== src/Tests/Device.antt =====
-- pkg/redfishread/redfishdevice.go: instances of the theorems.
use i_drac_telemetry_referen.Tests.Fixtures.{trees}
use i_drac_telemetry_referen.Common.{
  ℕ, ◌≡◌, refl, Bool, none, some, List, [], ◌∷◌, String, if◌then◌else◌,
}
use i_drac_telemetry_referen.Common.Text.{◌==◌, codes}
use i_drac_telemetry_referen.Json.{Json, arr, nil, str, field, end}
use i_drac_telemetry_referen.Redfish.{
  RedfishPayload, Outcome, value, failed, panics, empty_payload, member, get_property_by_name,
  resolve, get_uri_from_value, value_to_payload,
}
use i_drac_telemetry_referen.Common.Ascii.{contains, has_prefix}
use i_drac_telemetry_referen.Device.{SystemDetail, group_of, parse_report, parse_redfish_events}
use i_drac_telemetry_referen.Device.Reports.{
  Metric, report_object, group_of_report, parse_report-report_object,
}
use i_drac_telemetry_referen.Device.Alerts.{
  Alert, events_object, value_of, parse_redfish_events-events_object,
}
use i_drac_telemetry_referen.Device.Listener.{event, metric_step, Listener, start_metric_listener}
use i_drac_telemetry_referen.Device.Listener.Runs.{
  Happening, silence, broken, empty, other, report, events_of, Served, start_metric_listener-Served,
}

abbrev server : SystemDetail
server = record {
  system_id = "S1";
  host_name = "host1";
  model = "R750";
  sku = "S1";
  fw_ver = "6.10";
  fqdn = "host1.lan";
  img_id = "";
}

-- The device knows one address.
abbrev knows : String → Bool
knows uri = uri == "/redfish/v1/Chassis/1"

abbrev served : String → Outcome RedfishPayload
served uri =
    if knows uri
    then value (record empty_payload { object = field "@odata.id" (str uri) end })
    else failed

abbrev clock : ℕ → String
clock n = "2024-05-01T10:00:00Z"

abbrev temperature : Metric
temperature = record {
  id = "TemperatureReading";
  context = "CPU.Socket.1";
  label = "CPU1 Temp";
  reading = some "41";
  timestamp = "2024-05-01T09:59:00Z";
}

abbrev fan : Metric
fan = record temperature { id = "RPMReading"; context = "Fan.1"; label = "Fan 1"; reading = none }

abbrev sensors : List Metric
sensors = temperature ∷ fan ∷ temperature ∷ []

parse_report-report_object_example :
    parse_report served clock server (record empty_payload {
      object = report_object "/redfish/v1/r/1" "Sensors" "Sensors" "2024-05-01T10:00:00Z" sensors;
    })
    ≡ value (group_of_report server "Sensors" "Sensors" "2024-05-01T10:00:00Z" sensors)
parse_report-report_object_example =
    parse_report-report_object served clock server "/redfish/v1/r/1" "Sensors" "Sensors"
      "2024-05-01T10:00:00Z" sensors (refl, (refl, (refl, tt)))

abbrev power_lost : Alert
power_lost = record {
  event_id = "2162";
  event_type = "Alert";
  timestamp = "2024-05-01T10:00:00Z";
  member_id = "7";
  severity = "Critical";
  message = "Power lost";
  message_id = "PSU0003";
  args = "1" ∷ "2" ∷ [];
  origin_uri = "/redfish/v1/Chassis/1";
}

abbrev no_origin : Alert
no_origin = record power_lost { args = []; origin_uri = "/redfish/v1/Gone" }

parse_redfish_events-events_object_example :
    parse_redfish_events served clock server "10.0.0.7"
      (record empty_payload { object = events_object "5" (power_lost ∷ no_origin ∷ []) })
    ≡ value (record (group_of server) {
      host_id = "10.0.0.7";
      id = "5";
      events = some (value_of power_lost "/redfish/v1/Chassis/1" ∷ value_of no_origin "" ∷ []);
    })
parse_redfish_events-events_object_example =
    parse_redfish_events-events_object served clock server knows (λ uri. refl) "10.0.0.7" "5"
      (power_lost ∷ no_origin ∷ []) (refl, (refl, tt))

abbrev fresh : Listener Json
fresh = record {
  bus = record { posted = []; sends = 0 };
  groups = [];
  restarts = 0;
  waits = 0;
  heard = 0;
}

abbrev sensor_report : Happening
sensor_report = report "/redfish/v1/r/1" "Sensors" "Sensors" "2024-05-01T10:00:00Z" sensors

abbrev day : List Happening
day =
    silence
    ∷ sensor_report
    ∷ broken (codes "connection error: closed")
    ∷ empty
    ∷ other (record empty_payload { object = field "@odata.type" (str "#Event.v1_5_0.Event") end })
    ∷ sensor_report
    ∷ []

-- A report without its name
no_name :
    start_metric_listener trees
      (λ n. none)
      ("/queue/influx" ∷ [])
      served
      clock
      server
      fresh
      (event (
          some (record empty_payload {
            object = field "@odata.type" (str "#MetricReport.v1_4_1.MetricReport") (
                field "@odata.id"
                  (str "/redfish/v1/r/1")
                  (field "Id" (str "Sensors") (field "MetricValues" (arr nil) end)));
          }))
        ∷ [])
    ≡ panics
unfolding start_metric_listener metric_step parse_report get_property_by_name resolve
    get_uri_from_value value_to_payload member contains has_prefix
no_name = refl

start_metric_listener-Served_example :
    (l' : Listener Json) × (start_metric_listener trees
        (λ n. none)
        ("/queue/influx" ∷ [])
        served
        clock
        server
        fresh
        (events_of day)
      ≡ value l')
    × Served trees (λ n. none) ("/queue/influx" ∷ []) served clock server fresh l' day
unfolding member contains has_prefix
start_metric_listener-Served_example =
    start_metric_listener-Served trees (λ n. none) ("/queue/influx" ∷ []) served clock server fresh
      day ((refl, (refl, (refl, tt))), (refl, ((refl, (refl, (refl, tt))), tt)))
