-- ===== src/Tests/SplunkPump.antt =====
-- cmd/splunkpump: a run.
use i_drac_telemetry_referen.Common.{◌≡◌, refl, some, [], ◌∷◌}
use i_drac_telemetry_referen.Common.Ascii.{has_prefix}
use i_drac_telemetry_referen.Common.Text.{append}
use i_drac_telemetry_referen.Json.{null, num, str, obj, end, field}
use i_drac_telemetry_referen.Databus.Group.{DataValue}
use i_drac_telemetry_referen.KafkaPump.{event_time, replace_zone}
use i_drac_telemetry_referen.SplunkPump.{handle_group}
use i_drac_telemetry_referen.Tests.KafkaPump.{formats, group}

abbrev watts : DataValue
watts = record {
  id = "Watts";
  context = "PSU";
  label = "";
  value = "7";
  system = "S1";
  host_name = "";
  timestamp = "2024-05-01T10:00:00+0000";
}

-- A value whose time cannot be read puts null into the body.
null_in_body :
    handle_group formats
      (λ s. some s)
      (λ t. "1714557600")
      "idrac"
      (record group { values = some (record watts { timestamp = "now" } ∷ watts ∷ []) })
    ≡ null
      ∷ obj (
          field "time" (num "1714557600") (
            field "event" (str "metric") (
              field "host" (str "S1") (
                field "fields"
                  (obj (
                    field "_value" (num "7") (
                      field "metric_name"
                        (str "PSU_Watts")
                        (field "source" (str "http:idrac") end))))
                  end))))
      ∷ []
unfolding handle_group event_time replace_zone has_prefix append
null_in_body = refl
