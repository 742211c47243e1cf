-- ===== src/OtelPump/Meta.antt =====
-- cmd/otelpump/otelpump.go: `readOtelMeta`, which reads how metrics are converted.
-- `Viper` is what package viper has read from the file: for each key whether it is set and whether
-- it can be unmarshalled. `order` is the order in which maps are gone through.
use i_drac_telemetry_referen.Common.{
  Bool, false, ◌||◌, Option, none, some, List, [], ◌∷◌, String, if◌then◌else◌,
}
use i_drac_telemetry_referen.Common.Ascii.{contains, has_prefix, dotted}
use i_drac_telemetry_referen.Common.Dict
use i_drac_telemetry_referen.Common.Dict.{Dict}
use i_drac_telemetry_referen.Common.Text.{◌==◌, append, codes}
use i_drac_telemetry_referen.Json.Structs.{◌>>=◌}
use i_drac_telemetry_referen.OtelPump.{Scalar, text, OtelMeta}
use i_drac_telemetry_referen.OtelPump.Metrics.{MapOrder}

-- A value under a metric: a map, or any other
pub data Setting : Type 0 where
  scalar : Scalar → Setting
  table : Dict Scalar → Setting

pub record Rf2Otel : Type 0 where
  pub scope_attr : Dict String
  pub metric : List (Dict Setting)

-- A part of the file: not there, or not to be unmarshalled, or its value
pub data Section (A : Type 0) : Type 0 where
  missing : Section A
  unreadable : Section A
  read : A → Section A

pub record Viper : Type 0 where
  pub repeated_metric_ids : Section (List String)
  pub scope_attr_default : Section (Dict String)
  pub metric_report : Option (Dict (Section Rf2Otel))

unfoldable pub contains_string : List String → String → Bool
contains_string [] str = false
contains_string (item ∷ slice) str = item == str || contains_string slice str

-- The loops that replace _ by . in keys, over the entries as they are at their start
unfoldable pub rename_keys : Dict String → Dict String → Dict String
unfolding contains dotted Dict.put Dict.remove has_prefix
rename_keys [] attrs = attrs
rename_keys ((sa, v) ∷ entries) attrs = rename_keys entries (
    if contains (codes sa) (codes "_")
    then Dict.put (Dict.remove attrs sa) (dotted sa) v
    else attrs)

-- The loops that copy entries into a map
unfoldable pub put_all : Dict String → Dict String → Dict String
unfolding Dict.put
put_all [] attrs = attrs
put_all ((k, v) ∷ entries) attrs = put_all entries (Dict.put attrs k v)

abbrev pub text_of : Option Setting → Option String
text_of (some (scalar (text s))) = some s
text_of _ = none

abbrev pub text_or_empty : Option String → String
text_or_empty none = ""
text_or_empty (some s) = s

abbrev scalar_text : Scalar → Option String
scalar_text (text s) = some s
scalar_text _ = none

-- The attributes of a metric; one that is no text panics.
unfoldable pub put_texts : Dict Scalar → Dict String → Option (Dict String)
unfolding Dict.put
put_texts [] attrs = some attrs
put_texts ((k, v) ∷ entries) attrs = scalar_text v >>= λ s. put_texts entries (Dict.put attrs k s)

abbrev put_attr : Option Setting → Dict String → Option (Dict String)
put_attr (some (table am)) attrs = put_texts am attrs
put_attr _ attrs = some attrs

-- An enumeration that is no map panics.
abbrev pub enum_of : Option Setting → Option (Option (Dict Scalar))
enum_of none = some none
enum_of (some (table enum)) = some (some enum)
enum_of (some _) = none

abbrev pub Metas : Type 0
Metas = Dict OtelMeta

module _ (repeated : List String) (report : String) (defaults local : Dict String) where
  unfoldable pub metric_key : String → String
  unfolding contains_string append
  metric_key rnm = if contains_string repeated rnm then append report (append ":" rnm) else rnm

  unfoldable pub attributes_of : Option Setting → Option (Dict String)
  unfolding put_all put_texts
  attributes_of attr = put_attr attr (put_all local (put_all defaults []))

  abbrev pub meta_with :
      Dict Setting → String → String → Dict String → Option (Dict Scalar) → OtelMeta
  meta_with m onm otyp attributes enum = record {
    name = onm;
    description = text_or_empty (text_of (Dict.get m "description"));
    unit = text_or_empty (text_of (Dict.get m "unit"));
    value_type = otyp;
    attributes = attributes;
    enum = enum;
  }

  abbrev pub read_with :
      Dict Setting → Option String → Option String → Option String → Metas → Option Metas
  read_with m (some onm) (some otyp) (some rnm) metas =
      attributes_of (Dict.get m "attr") >>= λ attributes. enum_of (Dict.get m "enum") >>= λ enum.
      some (Dict.put metas (metric_key rnm) (meta_with m onm otyp attributes enum))
  read_with m _ _ _ metas = some metas

  -- One metric of a report; none is a panic.
  unfoldable pub read_metric : Dict Setting → Metas → Option Metas
  unfolding attributes_of metric_key Dict.get Dict.put
  read_metric m metas =
      read_with m (text_of (Dict.get m "otelmetricname")) (text_of (Dict.get m "oteltype"))
        (text_of (Dict.get m "redfishname")) metas

  unfoldable pub read_metrics : List (Dict Setting) → Metas → Option Metas
  unfolding read_metric
  read_metrics [] metas = some metas
  read_metrics (m ∷ ms) metas = read_metric m metas >>= read_metrics ms

pub data Loaded : Type 0 where
  loaded : Metas → Loaded
  exits : Loaded
  panics : Loaded

module _ (order : MapOrder) where
  open order use {range}

  abbrev renamed : List String → Dict String → Dict String
  renamed loop attrs = rename_keys (range loop attrs) attrs

  module _ (repeated : List String) (defaults : Dict String) where
    abbrev read_report : String → Section Rf2Otel → Metas → Option Metas
    read_report report (read r2o) metas =
        read_metrics repeated report defaults (renamed ("ScopeAttr" ∷ report ∷ []) r2o.scope_attr)
          r2o.metric metas
    read_report report _ metas = some metas

    -- The loop over the reports
    unfoldable pub read_reports : Dict (Section Rf2Otel) → Metas → Option Metas
    unfolding read_metrics rename_keys
    read_reports [] metas = some metas
    read_reports ((report, section) ∷ rest) metas =
        read_report report section metas >>= read_reports rest

    abbrev or_panics : Option Metas → Loaded
    or_panics none = panics
    or_panics (some metas) = loaded metas

    abbrev read_all : Option (Dict (Section Rf2Otel)) → Metas → Loaded
    read_all none metas = exits
    read_all (some reports) metas =
        or_panics (read_reports (range ("MetricReport" ∷ []) reports) metas)

  abbrev with_defaults :
      List String → Section (Dict String) → Option (Dict (Section Rf2Otel)) → Metas → Loaded
  with_defaults repeated (read scope_def) reports metas =
      read_all repeated (renamed ("ScopeAttrDefault" ∷ []) scope_def) reports metas
  with_defaults repeated _ reports metas = exits

  abbrev with_repeated : Section (List String) → Viper → Metas → Loaded
  with_repeated missing cfg metas = with_defaults [] cfg.scope_attr_default cfg.metric_report metas
  with_repeated (read ids) cfg metas =
      with_defaults ids cfg.scope_attr_default cfg.metric_report metas
  with_repeated unreadable cfg metas = exits

  -- `readOtelMeta`, which begins with the metrics that are there already; none is a file that
  -- cannot be read.
  unfoldable pub read_otel_meta : Option Viper → Metas → Loaded
  unfolding read_reports
  read_otel_meta none metas = exits
  read_otel_meta (some cfg) metas = with_repeated cfg.repeated_metric_ids cfg metas
