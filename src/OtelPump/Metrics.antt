-- ===== src/OtelPump/Metrics.antt =====
-- cmd/otelpump/otelpump.go: the metrics that are made of a data group.
-- `MapOrder` is the order in which a `range` over a map goes, which may differ from one loop to the
-- next: the first argument of `range` names the loop by the keys it stands under. A type assertion
-- that fails is a panic, which is `none`.
use i_drac_telemetry_referen.Common.{ℕ, Option, none, some, List, [], ◌∷◌, String, if◌then◌else◌}
use i_drac_telemetry_referen.Common.Ascii.{lower_text}
use i_drac_telemetry_referen.Common.Dict
use i_drac_telemetry_referen.Common.Dict.{Dict}
use i_drac_telemetry_referen.Common.Int.{ℤ, to_bits}
use i_drac_telemetry_referen.Common.Text.{◌==◌, append}
use i_drac_telemetry_referen.Databus.Group.{DataGroup}
use i_drac_telemetry_referen.OtelPump.{
  Readings, Scalar, int, OtelMeta, KeyValue, kv, get_host_attributes, Reading, float64, string, Dp,
  parse_nanos, group_metrics,
}
use i_drac_telemetry_referen.Json.Structs.{◌>>=◌}
use mathlib.Core.List.{Permᴰ}

pub record MapOrder : Type 1 where
  pub range : {V : Type 0} → List String → Dict V → Dict V
  pub range-Perm : {V : Type 0} (loop : List String) (m : Dict V) → Permᴰ (range loop m) m

-- A value of the attributes of a metric that stands for another
unfoldable pub scope_value : String → String → String → String
scope_value fqdd timestamp val =
    if val == "var-FQDD" then fqdd else if val == "var-Timestamp" then timestamp else val

unfoldable pub scope_attributes : String → String → Dict String → List KeyValue
unfolding scope_value
scope_attributes fqdd timestamp [] = []
scope_attributes fqdd timestamp ((attr, val) ∷ attrs) =
    kv attr (scope_value fqdd timestamp val) ∷ scope_attributes fqdd timestamp attrs

abbrev pub named : Option OtelMeta → Option OtelMeta
named none = none
named (some om) = if om.name == "" then none else some om

abbrev pub or_prefixed : Option OtelMeta → Option OtelMeta → Option OtelMeta
or_prefixed none om = om
or_prefixed (some om) _ = some om

-- The lookup of a metric of a report
unfoldable pub meta_of : Dict OtelMeta → String → String → Option OtelMeta
unfolding Dict.get lower_text append
meta_of metas report id =
    or_prefixed (named (Dict.get metas id))
      (named (Dict.get metas (append (lower_text report) (append ":" id))))

abbrev pub int_of : Scalar → Option ℤ
int_of (int n) = some n
int_of _ = none

module _ (readings : Readings) where
  open readings use {Float}

  pub data Number : Type 0 where
    as_double : Float → Number
    as_int : ℤ → Number

  pub record NumberDataPoint : Type 0 where
    pub time_unix_nano : ℕ
    pub attributes : List KeyValue
    pub value : Number

  -- A metric with a gauge of points
  pub record Metric : Type 0 where
    pub name : String
    pub description : String
    pub unit : String
    pub metadata : List KeyValue
    pub points : List NumberDataPoint

  -- The attributes of the scope are none while they are nil.
  pub record ScopeMetrics : Type 0 where
    pub scope : Option (List KeyValue)
    pub metrics : List Metric

  pub record ResourceMetrics : Type 0 where
    pub resource : List KeyValue
    pub scope_metrics : List ScopeMetrics

  abbrev pub point : Dp readings → Number → NumberDataPoint
  point p n = record { time_unix_nano = to_bits p.time; attributes = p.attr; value = n }

  -- What an enumeration makes of a text
  abbrev pub mapped : Option Scalar → Option (Option Number)
  mapped none = some none
  mapped (some s) = int_of s >>= λ n. some (some (as_int n))

  abbrev pub enumerated : Option (Dict Scalar) → String → Option (Option Number)
  enumerated none s = some none
  enumerated (some enum) s = mapped (Dict.get enum (lower_text s))

  -- The number of a reading: `some none` for a text that is left out
  unfoldable pub number_of : Option (Dict Scalar) → Reading readings → Option (Option Number)
  unfolding Dict.get lower_text
  number_of enum (float64 f) = some (some (as_double f))
  number_of enum (string s) = enumerated enum s

  abbrev pub add_number : Dp readings → Option Number → List NumberDataPoint → List NumberDataPoint
  add_number p none rest = rest
  add_number p (some n) rest = point p n ∷ rest

  unfoldable pub points_of :
      Option (Dict Scalar) → List (Dp readings) → Option (List NumberDataPoint)
  unfolding number_of
  points_of enum [] = some []
  points_of enum (p ∷ ps) =
      number_of enum p.value >>= λ n. points_of enum ps >>= λ rest. some (add_number p n rest)

  module _ (print_int : ℤ → String) (order : MapOrder) where
    open order use {range}

    unfoldable pub metadata_of : Dict Scalar → Option (List KeyValue)
    unfolding append
    metadata_of [] = some []
    metadata_of ((k, v) ∷ enum) = int_of v >>= λ n.
        metadata_of enum >>= λ rest. some (kv (append "enum." k) (print_int n) ∷ rest)

    abbrev pub metadata_or_nil : List String → Option (Dict Scalar) → Option (List KeyValue)
    metadata_or_nil loop none = some []
    metadata_or_nil loop (some enum) = metadata_of (range loop enum)

    unfoldable pub metric_of : List String → OtelMeta → List (Dp readings) → Option Metric
    unfolding metadata_of points_of
    metric_of loop om dps = metadata_or_nil loop om.enum >>= λ metadata.
        points_of om.enum dps >>= λ points. some (record {
          name = om.name;
          description = om.description;
          unit = om.unit;
          metadata = metadata;
          points = points;
        })

    module _ (metas : Dict OtelMeta) (group : DataGroup) where
      abbrev pub new_scope : String → String → OtelMeta → Option ℤ → Option (List KeyValue)
      new_scope fqdd id om none = none
      new_scope fqdd id om (some time) =
          some (
            scope_attributes fqdd (print_int time) (range (fqdd ∷ id ∷ "scope" ∷ []) om.attributes))

      -- The attributes are those of the first metric that is found.
      unfoldable pub scope_or_new :
          Option (List KeyValue) → String → String → OtelMeta → Option (List KeyValue)
      unfolding scope_attributes parse_nanos
      scope_or_new (some attrs) fqdd id om = some attrs
      scope_or_new none fqdd id om = new_scope fqdd id om (parse_nanos readings group.timestamp)

      abbrev pub Scoped : Type 0
      Scoped = Option (List KeyValue) × List Metric

      abbrev pub add_metric : Metric → Scoped → Scoped
      add_metric m (scope, metrics) = (scope, m ∷ metrics)

      module _ (next : Option (List KeyValue) → Option Scoped) where
        abbrev pub with_scope :
            List String → OtelMeta → List (Dp readings) → Option (List KeyValue) → Option Scoped
        with_scope loop om dps none = next none
        with_scope loop om dps (some attrs) =
            metric_of loop om dps >>= λ m. next (some attrs) >>= λ r. some (add_metric m r)

        abbrev pub with_meta :
            String
            → String
            → List (Dp readings)
            → Option (List KeyValue)
            → Option OtelMeta
            → Option Scoped
        with_meta fqdd id dps scope none = next scope
        with_meta fqdd id dps scope (some om) =
            with_scope (fqdd ∷ id ∷ "enum" ∷ []) om dps (scope_or_new scope fqdd id om)

      -- The loop over the metrics of a device
      unfoldable pub metrics_of :
          String → Dict (List (Dp readings)) → Option (List KeyValue) → Option Scoped
      unfolding meta_of metric_of scope_or_new
      metrics_of fqdd [] scope = some (scope, [])
      metrics_of fqdd ((id, dps) ∷ rest) scope =
          with_meta (λ s. metrics_of fqdd rest s) fqdd id dps scope (meta_of metas group.id id)

      abbrev pub scope_metrics_of : Scoped → ScopeMetrics
      scope_metrics_of (scope, metrics) = record { scope = scope; metrics = metrics }

      -- The loop over the devices
      unfoldable pub scopes_of : Dict (Dict (List (Dp readings))) → Option (List ScopeMetrics)
      unfolding metrics_of
      scopes_of [] = some []
      scopes_of ((fqdd, inner) ∷ rest) = metrics_of fqdd (range (fqdd ∷ []) inner) none >>= λ r.
          scopes_of rest >>= λ sms. some (scope_metrics_of r ∷ sms)

      -- `toOTLPMetrics`
      unfoldable pub to_otlp_metrics : Option ResourceMetrics
      unfolding scopes_of group_metrics get_host_attributes
      to_otlp_metrics = scopes_of (range [] (group_metrics readings group)) >>= λ sms.
          some (record { resource = get_host_attributes group; scope_metrics = sms })
