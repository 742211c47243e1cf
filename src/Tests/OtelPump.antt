-- ===== src/Tests/OtelPump.antt =====
-- cmd/otelpump: runs, and instances of the theorems.
use i_drac_telemetry_referen.Common.{
  ℕ, false, ◌≡◌, refl, subst, none, some, [], ◌∷◌, String, Any, inl, if◌then◌else◌,
}
use i_drac_telemetry_referen.Common.Ascii.{lower_text, lower, dotted, trim_space}
use i_drac_telemetry_referen.Common.Dict
use i_drac_telemetry_referen.Common.Dict.{Dict}
use i_drac_telemetry_referen.Common.Int.{pos}
use i_drac_telemetry_referen.Common.Text.{◌==◌, append}
use i_drac_telemetry_referen.Databus.Group.{DataValue, DataGroup}
use i_drac_telemetry_referen.OtelPump.{
  Readings, text, int, OtelMeta, dp_of, or_empty, reading_of, parse_nanos, group_metrics,
  get_host_attributes, kv,
}
use i_drac_telemetry_referen.OtelPump.Metrics.{MapOrder, as_int, number_of, meta_of}
use i_drac_telemetry_referen.OtelPump.Logs.{map_severity, warn}
use i_drac_telemetry_referen.OtelPump.Meta.{
  Setting, scalar, table, read, loaded, read_otel_meta, read_metrics, meta_with, metric_key,
  contains_string, attributes_of,
}
use i_drac_telemetry_referen.OtelPump.Grouping.{
  found, selected, some_points, group_metrics-selected,
}
use i_drac_telemetry_referen.Json.Results.{Gives}
use i_drac_telemetry_referen.OtelPump.Sending.{metrics, convert_and_send}
use i_drac_telemetry_referen.OtelPump.Exported.{IsExported, convert_and_send-IsExported}
use i_drac_telemetry_referen.OtelPump.Lookup.{IsOther, read_metrics-meta_of}
use i_drac_telemetry_referen.Tests.Fixtures.{trees}
use i_drac_telemetry_referen.Tests.KafkaPump.{group}
use mathlib.Core.List.{Permᴰ}
use mathlib.Core.List

severity : map_severity " Warning " ≡ warn
unfolding map_severity lower
severity = refl

dots : dotted "hw_type" ≡ "hw.type"
unfolding dotted
dots = refl

abbrev readings : Readings
readings = record {
  Float = ℕ;
  parse_float = λ s. if s == "7" then some 7 else none;
  parse_time = λ s. if s == "noon" then some (pos 12) else none;
}

abbrev in_order : MapOrder
in_order = record { range = λ loop m. m; range-Perm = λ loop m. List.Permᴰ.refl m }

abbrev value : String → String → DataValue
value id v = record {
  id = id;
  context = "NIC.1";
  label = "";
  value = v;
  system = "S1";
  host_name = "";
  timestamp = "noon";
}

abbrev link : OtelMeta
link = record {
  name = "hw.network.link";
  description = "";
  unit = "1";
  value_type = "gauge";
  attributes = ("hw.id", "var-FQDD") ∷ [];
  enum = some (("down", int (pos 0)) ∷ ("up", int (pos 1)) ∷ []);
}

abbrev metas : Dict OtelMeta
metas = ("nicstatus:LinkStatus", link) ∷ []

abbrev links : DataGroup
links = record group {
  id = "NICStatus";
  timestamp = "noon";
  values = some (value "LinkStatus" "Up" ∷ value "Unknown" "7" ∷ value "LinkStatus" "lost" ∷ []);
}

exported :
    convert_and_send readings trees (λ n. "12") metas in_order links
    ≡ some (
        metrics (record {
          resource = get_host_attributes links;
          scope_metrics =
              record {
                scope = some (kv "hw.id" "NIC.1" ∷ []);
                metrics =
                    record {
                      name = "hw.network.link";
                      description = "";
                      unit = "1";
                      metadata = kv "enum.down" "12" ∷ kv "enum.up" "12" ∷ [];
                      points =
                          record { time_unix_nano = 12; attributes = []; value = as_int (pos 1) }
                          ∷ [];
                    }
                    ∷ [];
              }
              ∷ [];
        })
        ∷ [])
unfolding convert_and_send
exported = refl

-- A group with no known metric is exported, with a scope that has no metrics.
nothing_known :
    convert_and_send readings trees (λ n. "12") [] in_order links
    ≡ some (
        metrics (record {
          resource = get_host_attributes links;
          scope_metrics = record { scope = none; metrics = [] } ∷ [];
        })
        ∷ [])
unfolding convert_and_send
nothing_known = refl

-- A text in an enumeration
text_in_enumeration :
    convert_and_send readings trees
      (λ n. "12")
      (("LinkStatus", record link { enum = some (("up", text "yes") ∷ []) }) ∷ [])
      in_order
      links
    ≡ none
unfolding convert_and_send
text_in_enumeration = refl

convert_and_send-IsExported_example :
    Gives (convert_and_send readings trees (λ n. "12") metas in_order links) (
      Any (
        IsExported readings trees
          (dp_of readings (value "LinkStatus" "Up") (pos 12))
          (as_int (pos 1))
          link))
unfolding convert_and_send meta_of number_of reading_of parse_nanos lower_text trim_space append
    Dict.get
convert_and_send-IsExported_example =
    convert_and_send-IsExported readings trees (λ n. "12") in_order metas links
      (value "LinkStatus" "Up") (pos 12) (pos 12) link (as_int (pos 1)) ((tt, (tt, tt)), tt) refl
      refl refl refl refl (inl refl)

group_metrics-selected_example :
    found (group_metrics readings links) "NIC.1" "LinkStatus"
    ≡ some_points readings (selected readings "NIC.1" "LinkStatus" (or_empty links.values))
group_metrics-selected_example = group_metrics-selected readings links "NIC.1" "LinkStatus"

abbrev link_settings : Dict Setting
link_settings =
    ("otelmetricname", scalar (text "hw.network.link"))
    ∷ ("oteltype", scalar (text "gauge"))
    ∷ ("redfishname", scalar (text "LinkStatus"))
    ∷ ("unit", scalar (text "1"))
    ∷ ("enum", table (("down", int (pos 0)) ∷ ("up", int (pos 1)) ∷ []))
    ∷ []

-- The keys of the scope have their underlines replaced.
loaded_link :
    read_otel_meta in_order
      (some (record {
        repeated_metric_ids = read ("LinkStatus" ∷ []);
        scope_attr_default = read (("hw_type", "host") ∷ []);
        metric_report = some (
            (
              "nicstatus",
              read (record {
                scope_attr = ("hw_id", "var-FQDD") ∷ ("hw_type", "network") ∷ [];
                metric = link_settings ∷ [];
              }),
            )
            ∷ []);
      }))
      []
    ≡ loaded (
        (
          "nicstatus:LinkStatus",
          record link { attributes = ("hw.type", "network") ∷ ("hw.id", "var-FQDD") ∷ [] },
        )
        ∷ [])
unfolding read_otel_meta
loaded_link = refl

-- Another metric of the report
abbrev speed_settings : Dict Setting
speed_settings =
    ("otelmetricname", scalar (text "hw.network.bandwidth"))
    ∷ ("oteltype", scalar (text "gauge"))
    ∷ ("redfishname", scalar (text "LinkSpeed"))
    ∷ []

speed-IsOther :
    IsOther
      ("LinkStatus" ∷ [])
      "nicstatus"
      []
      []
      "LinkStatus"
      (append "nicstatus" (append ":" "LinkStatus"))
      speed_settings
unfolding Dict.get attributes_of metric_key contains_string append
speed-IsOther = (tt, tt, λ r e. by_name r e)
  where
    by_name :
        (r : String)
        → some "LinkSpeed" ≡ some r
        → (metric_key ("LinkStatus" ∷ []) "nicstatus" [] [] r == "LinkStatus" ≡ false)
          × (metric_key ("LinkStatus" ∷ []) "nicstatus" [] [] r
                == append "nicstatus" (append ":" "LinkStatus")
              ≡ false)
    by_name r e =
        let same : "LinkSpeed" ≡ r = cc in
        subst
          (λ z.
            (metric_key ("LinkStatus" ∷ []) "nicstatus" [] [] z == "LinkStatus" ≡ false)
            × (metric_key ("LinkStatus" ∷ []) "nicstatus" [] [] z
                  == append "nicstatus" (append ":" "LinkStatus")
                ≡ false))
          same (refl, refl)

read_metrics-meta_of_example :
    Gives
      (read_metrics ("LinkStatus" ∷ []) "nicstatus" [] [] (link_settings ∷ speed_settings ∷ []) [])
      (λ metas'.
        meta_of metas' "NICStatus" "LinkStatus"
        ≡ some (
            meta_with
              ("LinkStatus" ∷ [])
              "nicstatus"
              []
              []
              link_settings
              "hw.network.link"
              "gauge"
              []
              link.enum))
unfolding Dict.get attributes_of lower_text
read_metrics-meta_of_example =
    read_metrics-meta_of ("LinkStatus" ∷ []) "nicstatus" [] [] link_settings (speed_settings ∷ [])
      [] "NICStatus" "hw.network.link" "gauge" "LinkStatus" [] link.enum refl refl refl refl refl
      refl refl (λ _. refl) (speed-IsOther, tt)
