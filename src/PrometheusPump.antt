-- ===== src/PrometheusPump.antt =====
-- cmd/prometheuspump/prometheuspump.go: the gauges that are set for the values of data groups.
-- The client library of Prometheus is a parameter: `set_gauge` is Set of WithLabelValues, and
-- `register` is MustRegister, both none where they panic. `parse_float` is what ParseFloat returns
-- beside its error, and whether there is one. A panic of the pump is none.
pub mod Gauges
pub mod Names
pub mod Latest
use i_drac_telemetry_referen.Common.{
  ℕ, Bool, true, false, ◌&&◌, ◌||◌, Option, none, some, List, [], ◌∷◌, String, if◌then◌else◌,
}
use i_drac_telemetry_referen.Common.Ascii.{contains, has_prefix, without_spaces}
use i_drac_telemetry_referen.Common.Dict
use i_drac_telemetry_referen.Common.Dict.{Dict}
use i_drac_telemetry_referen.Common.Text.{◌==◌, codes}
use i_drac_telemetry_referen.Json.Structs.{◌>>=◌}
use i_drac_telemetry_referen.Databus.Group.{DataValue, DataGroup}
use i_drac_telemetry_referen.OtelPump.{or_empty}

pub record Library : Type 1 where
  pub Float : Type 0
  pub parse_float : String → Float × Bool
  pub one : Float
  pub GaugeVec : Type 0
  pub new_gauge_vec : (subsystem name : String) → List String → GaugeVec
  pub set_gauge : GaugeVec → List String → Float → Option GaugeVec
  pub Registry : Type 0
  pub register : Registry → GaugeVec → Option Registry

module _ (library : Library) where
  open library use {Float, parse_float, one, GaugeVec, new_gauge_vec, set_gauge, Registry, register}

  pub record Pump : Type 0 where
    pub collectors : Dict (Dict GaugeVec)
    pub registry : Registry

  abbrev pub stored : Pump → String → String → GaugeVec → Pump
  stored pump key id gauge = record pump {
    collectors =
        Dict.put pump.collectors key (Dict.put (or_empty (Dict.get pump.collectors key)) id gauge);
  }

  abbrev pub registered : Pump → String → String → GaugeVec → Registry → Pump
  registered pump key id gauge registry = record (stored pump key id gauge) { registry = registry }

  module _ (key subsystem : String) (labels : List String) where
    abbrev pub with_gauge : Pump → String → List String → Float → Option GaugeVec → Option Pump
    with_gauge pump id l f (some gauge) =
        set_gauge gauge l f >>= λ gauge'. some (stored pump key id gauge')
    with_gauge pump id l f none =
        let made = new_gauge_vec subsystem id labels in
        register pump.registry made >>= λ registry.
        set_gauge made l f >>= λ gauge. some (registered pump key id gauge registry)

    -- The gauge of a map of collectors is made where it is not there, and set.
    unfoldable pub do_gauge : Pump → String → List String → Float → Option Pump
    unfolding Dict.get Dict.put
    do_gauge pump id l f =
        with_gauge pump id l f (Dict.get (or_empty (Dict.get pump.collectors key)) id)

  abbrev up_or : String → Float × Bool → Float
  up_or s (f, false) = f
  up_or s (f, true) = if s == "Up" || s == "Operational" then one else f

  abbrev pub fqdd_float : String → Float
  fqdd_float s = up_or s (parse_float s)

  -- `doFQDDGuage`
  unfoldable pub do_fqdd_gauge : Pump → DataValue → Option Pump
  unfolding do_gauge
  do_fqdd_gauge pump v =
      do_gauge "FQDD" "" ("ServiceTag" ∷ "HostName" ∷ "FQDD" ∷ []) pump v.id
        (v.system ∷ v.host_name ∷ v.context ∷ []) (fqdd_float v.value)

  -- `doNonFQDDGuage`
  unfoldable pub do_non_fqdd_gauge : Pump → DataValue → Option Pump
  unfolding do_gauge without_spaces
  do_non_fqdd_gauge pump v =
      do_gauge (without_spaces v.context) (without_spaces v.context)
        ("ServiceTag" ∷ "HostName" ∷ []) pump v.id (v.system ∷ v.host_name ∷ [])
        (parse_float v.value).0

  abbrev pub is_fqdd : DataValue → Bool
  is_fqdd v = contains (codes v.context) (codes ".")

  unfoldable pub handle_value : Pump → DataValue → Option Pump
  unfolding do_fqdd_gauge do_non_fqdd_gauge contains has_prefix
  handle_value pump v = if is_fqdd v then do_fqdd_gauge pump v else do_non_fqdd_gauge pump v

  unfoldable pub handle_values : Pump → List DataValue → Option Pump
  unfolding handle_value
  handle_values pump [] = some pump
  handle_values pump (v ∷ vs) = handle_value pump v >>= λ pump'. handle_values pump' vs

  -- The loop of `handleGroups` over the groups that come in
  unfoldable pub handle_groups : Pump → List DataGroup → Option Pump
  unfolding handle_values
  handle_groups pump [] = some pump
  handle_groups pump (group ∷ groups) =
      handle_values pump (or_empty group.values) >>= λ pump'. handle_groups pump' groups
