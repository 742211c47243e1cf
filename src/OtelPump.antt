-- ===== src/OtelPump.antt =====
-- cmd/otelpump/otelpump.go: the readings of a data group, and how they are grouped.
-- `Readings` stands for `ParseFloat`, with none for an error, and for `time.Parse` of RFC 3339
-- followed by `UnixNano`. An enumeration is a map of any values, which `Scalar` tells apart as far
-- as the code does.
pub mod Metrics
pub mod Logs
pub mod Meta
pub mod Sending
pub mod Grouping
pub mod Kept
pub mod Complete
pub mod Exported
pub mod Lookup
use i_drac_telemetry_referen.Common.{
  Bool, Option, none, some, List, [], ◌∷◌, ◌++◌, String, if◌then◌else◌, Bytes,
}
use i_drac_telemetry_referen.Common.Ascii.{trim_space}
use i_drac_telemetry_referen.Common.Dict
use i_drac_telemetry_referen.Common.Dict.{Dict}
use i_drac_telemetry_referen.Common.Int.{ℤ}
use i_drac_telemetry_referen.Common.Text.{codes}
use i_drac_telemetry_referen.Databus.Group.{DataValue, DataGroup}

pub record Readings : Type 1 where
  pub Float : Type 0
  pub parse_float : String → Option Float
  pub parse_time : String → Option ℤ

pub data Scalar : Type 0 where
  text : String → Scalar
  int : ℤ → Scalar
  other : Scalar

pub record OtelMeta : Type 0 where
  pub name : String
  pub description : String
  pub unit : String
  pub value_type : String
  pub attributes : Dict String
  pub enum : Option (Dict Scalar)

pub record KeyValue : Type 0 where
  pub key : String
  pub value : String

abbrev pub kv : String → String → KeyValue
kv k v = record { key = k; value = v }

unfoldable pub get_host_attributes : DataGroup → List KeyValue
get_host_attributes group =
    kv "host.type" "PowerEdge"
    ∷ kv "host.id" group.sku
    ∷ kv "host.name" group.fqdn
    ∷ kv "host.model" group.model
    ∷ []

abbrev pub or_empty {ℓ} : {A : Type ℓ} → Option (List A) → List A
or_empty none = []
or_empty (some xs) = xs

module _ (readings : Readings) where
  open readings use {Float, parse_float, parse_time}

  pub data Reading : Type 0 where
    float64 : Float → Reading
    string : String → Reading

  pub record Dp : Type 0 where
    pub value : Reading
    pub time : ℤ
    pub attr : List KeyValue

  abbrev parsed_or : String → Option Float → Reading
  parsed_or s none = string s
  parsed_or s (some f) = float64 f

  -- The reading of a text, with what `parseFloat` returns.
  unfoldable pub reading_of : String → Reading
  reading_of s = parsed_or s (parse_float s)

  abbrev parse_some : String → Bytes → Option ℤ
  parse_some s [] = none
  parse_some s (c ∷ cs) = parse_time s

  -- `parseRFC3339ToNanos`
  unfoldable pub parse_nanos : String → Option ℤ
  unfolding trim_space
  parse_nanos s = parse_some s (trim_space (codes s))

  abbrev pub Groups : Type 0
  Groups = Dict (Dict (List Dp))

  abbrev pub dp_of : DataValue → ℤ → Dp
  dp_of v time = record { value = reading_of v.value; time = time; attr = [] }

  abbrev add_point : Dict (List Dp) → String → Dp → Dict (List Dp)
  add_point points id p = Dict.put points id (or_empty (Dict.get points id) ++ p ∷ [])

  unfoldable pub add_value : Groups → DataValue → Option ℤ → Groups
  unfolding Dict.get Dict.put reading_of
  add_value groups v none = groups
  add_value groups v (some time) =
      Dict.put groups v.context
        (add_point (or_empty (Dict.get groups v.context)) v.id (dp_of v time))

  unfoldable pub add_values : Groups → List DataValue → Groups
  unfolding add_value parse_nanos
  add_values groups [] = groups
  add_values groups (v ∷ vs) = add_values (add_value groups v (parse_nanos v.timestamp)) vs

  -- `groupMetricsByFQDDAndMetricId`
  unfoldable pub group_metrics : DataGroup → Groups
  unfolding add_values
  group_metrics group = add_values [] (or_empty group.values)
