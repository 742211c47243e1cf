-- ===== src/PrometheusPump/Latest.antt =====
-- cmd/prometheuspump/prometheuspump.go: each gauge has the latest value for its labels.
use i_drac_telemetry_referen.Common.{
  Bool, true, false, not, ◌&&◌, ◌≡◌, ◌∙◌, refl, ap, subst, Option, some, List, [], ◌∷◌, String, All,
  if◌then◌else◌,
}
use i_drac_telemetry_referen.Common.Ascii.{without_spaces}
use i_drac_telemetry_referen.Common.Text.{◌==◌}
use i_drac_telemetry_referen.Json.Results.{Gives, Gives-bind, Gives-weaken}
use i_drac_telemetry_referen.Databus.Group.{DataValue}
use i_drac_telemetry_referen.PrometheusPump.{
  Library, Pump, is_fqdd, fqdd_float, do_fqdd_gauge, do_non_fqdd_gauge, do_gauge, handle_value,
  handle_values,
}
use i_drac_telemetry_referen.PrometheusPump.Gauges.{
  GaugeLaws, same_labels, same_length, reading, names, IsShaped,
}
use i_drac_telemetry_referen.PrometheusPump.Names.{
  IsNameable, subsystem_of, IsFree, IsUpdated, do_gauge-IsUpdated,
}

module _ (library : Library) (laws : GaugeLaws library) where
  open library use {Float, parse_float}

  -- The key, the labels and the number that a value sets
  abbrev pub key_of : DataValue → String
  key_of v = if is_fqdd library v then "FQDD" else without_spaces v.context

  abbrev pub labels_of : DataValue → List String
  labels_of v =
      if is_fqdd library v
      then v.system ∷ v.host_name ∷ v.context ∷ []
      else v.system ∷ v.host_name ∷ []

  abbrev pub float_of : DataValue → Float
  float_of v = if is_fqdd library v then fqdd_float library v.value else (parse_float v.value).0

  -- The collectors of devices are not taken for those of a context.
  abbrev pub IsApart : DataValue → Type 0
  IsApart v = (not (is_fqdd library v) && without_spaces v.context == "FQDD") ≡ false

  unfoldable pub latest :
      List DataValue → String → String → List String → Option Float → Option Float
  latest [] k i m before = before
  latest (v ∷ vs) k i m before = latest vs k i m (
      if key_of v == k && (v.id == i && same_labels (labels_of v) m)
      then some (float_of v)
      else before)

  module _ (D : String → String → Type 0) (nameable : IsNameable library laws D) where
    -- The gauges of the pump and of its registry
    abbrev pub IsSound : Pump library → Type 0
    IsSound pump = IsShaped library laws pump × IsFree library laws D pump

    fqdd-IsUpdated :
        (pump : Pump library) (v : DataValue)
        → D "FQDD" v.id
        → IsSound pump
        → Gives (do_fqdd_gauge library pump v) (
            IsUpdated library laws D pump "FQDD" v.id
              (v.system ∷ v.host_name ∷ v.context ∷ [])
              (fqdd_float library v.value))
    unfolding do_fqdd_gauge same_length
    fqdd-IsUpdated pump v d sound =
        do_gauge-IsUpdated library laws D nameable pump "FQDD" v.id
          (v.system ∷ v.host_name ∷ v.context ∷ []) (fqdd_float library v.value) d sound.0 sound.1
          refl

    non_fqdd-IsUpdated :
        (pump : Pump library) (v : DataValue)
        → D (without_spaces v.context) v.id
        → IsSound pump
        → without_spaces v.context == "FQDD" ≡ false
        → Gives (do_non_fqdd_gauge library pump v) (
            IsUpdated library laws D pump
              (without_spaces v.context)
              v.id
              (v.system ∷ v.host_name ∷ [])
              (parse_float v.value).0)
    unfolding do_non_fqdd_gauge same_length
    non_fqdd-IsUpdated pump v d sound apart =
        let key = without_spaces v.context in
        let l = v.system ∷ v.host_name ∷ [] in
        let f = (parse_float v.value).0 in
        let subsystem : subsystem_of library laws key ≡ key = rw apart refl in
        let ns : names library laws key ≡ "ServiceTag" ∷ "HostName" ∷ [] = rw apart refl in
        subst
          (λ s.
            Gives (do_gauge library key s ("ServiceTag" ∷ "HostName" ∷ []) pump v.id l f)
              (IsUpdated library laws D pump key v.id l f))
          subsystem
          (subst
            (λ n.
              Gives (do_gauge library key (subsystem_of library laws key) n pump v.id l f)
                (IsUpdated library laws D pump key v.id l f))
            ns
            (do_gauge-IsUpdated library laws D nameable pump key v.id l f d sound.0 sound.1
              (rw ns refl)))

    handle_value-IsUpdated :
        (pump : Pump library) (v : DataValue)
        → D (key_of v) v.id
        → IsSound pump
        → IsApart v
        → Gives
            (handle_value library pump v)
            (IsUpdated library laws D pump (key_of v) v.id (labels_of v) (float_of v))
    unfolding handle_value
    handle_value-IsUpdated pump v d sound apart = by_context (is_fqdd library v) d apart
      where
        by_context :
            (b : Bool)
            → D (if b then "FQDD" else without_spaces v.context) v.id
            → (not b && without_spaces v.context == "FQDD") ≡ false
            → Gives (if b then do_fqdd_gauge library pump v else do_non_fqdd_gauge library pump v) (
                IsUpdated library laws D pump
                  (if b then "FQDD" else without_spaces v.context)
                  v.id
                  (if b
                    then v.system ∷ v.host_name ∷ v.context ∷ []
                    else v.system ∷ v.host_name ∷ [])
                  (if b then fqdd_float library v.value else (parse_float v.value).0))
        by_context true d apart = fqdd-IsUpdated pump v d sound
        by_context false d apart = non_fqdd-IsUpdated pump v d sound apart

    -- Where gauges hold what is set, and the registry takes a valid gauge whose full name it does
    -- not have: for keys and names whose gauges are valid with different full names, from a pump
    -- that has the gauges of these names that are registered, and for values with such keys and
    -- names, with no context that is FQDD but for its spaces, the pump does not panic. For each gauge
    -- and values of its labels it then shows the latest of the numbers that set them, or what was
    -- there before.
    pub handle_values-latest :
        (pump : Pump library) (vs : List DataValue)
        → IsSound pump
        → All IsApart vs
        → All (λ v. D (key_of v) v.id) vs
        → Gives (handle_values library pump vs) (λ pump'.
          IsSound pump'
          × ((k i : String) (m : List String)
              → reading library laws pump' k i m
                ≡ latest vs k i m (reading library laws pump k i m)))
    unfolding handle_values latest
    handle_values-latest pump [] sound apart ds = (sound, λ k i m. refl)
    handle_values-latest pump (v ∷ vs) sound apart ds =
        Gives-bind (IsUpdated library laws D pump (key_of v) v.id (labels_of v) (float_of v)) _
          (handle_value library pump v) _ (handle_value-IsUpdated pump v ds.0 sound apart.0)
          λ pump' _ is_set.
            Gives-weaken _ _ (handle_values library pump' vs)
              (λ pump'' h. (h.0, λ k i m. h.1 k i m ∙ ap (latest vs k i m) (is_set.2 k i m)))
              (handle_values-latest pump' vs (is_set.0, is_set.1) apart.1 ds.1)
