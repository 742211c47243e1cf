-- ===== src/Tests/KafkaPump.antt =====
-- cmd/kafkapump: runs, and an instance of the theorem.
use i_drac_telemetry_referen.Common.{
  ℕ, zero, Bool, true, false, ◌≡◌, refl, Option, none, some, List, [], ◌∷◌, if◌then◌else◌,
}
use i_drac_telemetry_referen.Common.Ascii.{has_prefix, to_lower, lower}
use i_drac_telemetry_referen.Json.{bytes_eq}
use i_drac_telemetry_referen.Json.Structs.{◌>>=◌}
use i_drac_telemetry_referen.Common.Int.{pos}
use i_drac_telemetry_referen.Common.Text.{◌==◌}
use i_drac_telemetry_referen.Databus.Group.{DataValue, DataGroup}
use i_drac_telemetry_referen.KafkaPump.{
  Formats, KafkaEvent, Bus, metric_events, handle_group, replace_zone, event_time, float_value,
  goes_on,
}

zone : replace_zone zero "2024-05-01T10:00:00+0000" ≡ "2024-05-01T10:00:00Z"
unfolding replace_zone has_prefix
zone = refl

abbrev pub formats : Formats
formats = record {
  Float = Option ℕ;
  zero_float = some 0;
  one_float = some 1;
  parse_float = λ s. if s == "7" then some (some 7) else if s == "NaN" then some none else none;
  parse_time = λ s. if s == "2024-05-01T10:00:00Z" then some (pos 1714557600) else none;
}

abbrev pub group : DataGroup
group = record {
  host_id = "S1";
  id = "PowerMetrics";
  label = "";
  sequence = "7";
  system = "S1";
  host_name = "";
  model = "";
  sku = "";
  fqdn = "";
  fw_ver = "";
  img_id = "";
  timestamp = "";
  values = some (
      record {
        id = "Watts";
        context = "PSU";
        label = "";
        value = "7";
        system = "S1";
        host_name = "";
        timestamp = "2024-05-01T10:00:00+0000";
      }
      ∷ []);
  events = none;
}

abbrev idle : Bus formats (List (KafkaEvent formats))
idle = record { posted = []; sends = 0 }

-- NaN is none.
abbrev finite : Option ℕ → Bool
finite none = false
finite (some n) = true

abbrev marshal : List (KafkaEvent formats) → Option (List (KafkaEvent formats))
marshal [] = some []
marshal (e ∷ es) = if finite e.fields.value then marshal es >>= (λ t. some (e ∷ t)) else none

-- One value that is not finite, and the pump sends an empty message.
abbrev watts : DataValue
watts = record {
  id = "Watts";
  context = "PSU";
  label = "";
  value = "7";
  system = "S1";
  host_name = "";
  timestamp = "2024-05-01T10:00:00+0000";
}

not_finite :
    handle_group formats [] marshal
      (λ n. none)
      idle
      "metrics"
      "alerts"
      (record group { values = some (record watts { value = "NaN" } ∷ watts ∷ []) })
    ≡ goes_on (record { posted = ("metrics", []) ∷ []; sends = 1 })
unfolding handle_group metric_events event_time float_value replace_zone bytes_eq to_lower lower
    has_prefix
not_finite = refl
