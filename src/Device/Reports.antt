-- ===== src/Device/Reports.antt =====
-- Metric reports as a device writes them, and the group that comes of one.
use i_drac_telemetry_referen.Common.{
  ℕ, zero, suc, false, ◌≡◌, refl, sym, ap, ◌∙◌, Option, none, some, List, [], ◌∷◌, ◌++◌, String,
  arith, length, length-append, append_assoc,
}
use i_drac_telemetry_referen.Common.Text.{◌==◌}
use i_drac_telemetry_referen.Json.{Json, Items, Fields, null, str, arr, obj, nil, cons, end, field}
use i_drac_telemetry_referen.Redfish.{
  RedfishPayload, Outcome, value, ◌>>=◌, member, size, elements, empty_payload,
  get_property_by_name, resolve, get_uri_from_value, value_to_payload, elements_of,
}
use i_drac_telemetry_referen.Redfish.Index.{get_property_by_index-array}
use i_drac_telemetry_referen.Databus.Group.{DataValue, DataGroup}
use i_drac_telemetry_referen.Device.{
  SystemDetail, group_of, append_to, add_value, add_values, parse_report, add_fetched,
}
use i_drac_telemetry_referen.Device.Slices.{filled, filled-none, slice_of}
use i_drac_telemetry_referen.Device.Labels.{get_value_id_context_and_label, metric_id}

-- A metric of a report; `none` for a value that is null.
pub record Metric : Type 0 where
  pub id : String
  pub context : String
  pub label : String
  pub reading : Option String
  pub timestamp : String

abbrev reading_json : Option String → Json
reading_json none = null
reading_json (some v) = str v

abbrev pub metric_fields : Metric → Fields
metric_fields m = field "MetricId" (str m.id) (
    field "Timestamp" (str m.timestamp) (
      field "MetricValue" (reading_json m.reading) (
        field "Oem"
          (obj (
            field "Dell" (obj (field "ContextID" (str m.context) (field "Label" (str m.label) end)))
              end))
          end)))

abbrev pub metric_items : List Metric → Items
metric_items [] = nil
metric_items (m ∷ ms) = cons (obj (metric_fields m)) (metric_items ms)

abbrev pub report_object : String → String → String → String → List Metric → Fields
report_object uri id name timestamp ms =
    field "@odata.type" (str "#MetricReport.v1_4_1.MetricReport") (
      field "@odata.id" (str uri) (
        field "Id" (str id) (
          field "Name" (str name) (
            field "Timestamp" (str timestamp) (field "MetricValues" (arr (metric_items ms)) end)))))

abbrev pub Named : List Metric → Type 0
Named [] = Unit
Named (m ∷ ms) = ((m.id == "") ≡ false) × Named ms

module _ (r : SystemDetail) where
  abbrev value_of : Metric → String → DataValue
  value_of m v = record {
    id = m.id;
    context = m.context;
    label = m.label;
    value = v;
    system = r.system_id;
    host_name = r.host_name;
    timestamp = m.timestamp;
  }

  abbrev then_value : Metric → Option String → List DataValue → List DataValue
  then_value m none vs = vs
  then_value m (some v) vs = value_of m v ∷ vs

  -- The values of the metrics that have a reading, in order.
  abbrev pub values_of : List Metric → List DataValue
  values_of [] = []
  values_of (m ∷ ms) = then_value m m.reading (values_of ms)

  abbrev add_reading : Metric → Option String → DataGroup → DataGroup
  add_reading m none group = group
  add_reading m (some v) group = record group { values = append_to group.values (value_of m v) }

  -- The group of a report with these metrics
  abbrev pub group_of_report : String → String → String → List Metric → DataGroup
  group_of_report id name timestamp ms = record (group_of r) {
    id = id;
    label = name;
    timestamp = timestamp;
    values = slice_of (values_of ms);
  }

module _ (get_uri : String → Outcome RedfishPayload) (now : ℕ → String) (r : SystemDetail) where
  add_value_lem :
      (m : Metric) (reading : Option String) (j : ℕ) (group : DataGroup)
      → (m.id == "") ≡ false
      → add_value get_uri now r (metric_fields (record m { reading = reading })) j group
        ≡ value (add_reading r m reading group)
  unfolding add_value get_value_id_context_and_label metric_id member
  add_value_lem m none j group e = refl
  add_value_lem m (some v) j group e = rw e (rw e)

  abbrev docs : List Metric → List Json
  docs [] = []
  docs (m ∷ ms) = obj (metric_fields m) ∷ docs ms

  elements-metric_items : (ms : List Metric) → elements (metric_items ms) ≡ docs ms
  unfolding elements
  elements-metric_items [] = refl
  elements-metric_items (m ∷ ms) = ap (λ js. obj (metric_fields m) ∷ js) (elements-metric_items ms)

  length-docs : (ms : List Metric) → length (docs ms) ≡ length ms
  length-docs [] = refl
  length-docs (m ∷ ms) = ap suc (length-docs ms)

  resolve_metric :
      (m : Metric)
      → resolve get_uri (obj (metric_fields m))
        ≡ value (record empty_payload { object = metric_fields m })
  unfolding resolve get_uri_from_value value_to_payload member size
  resolve_metric m = refl

  add_then :
      (m : Metric) (reading : Option String) (ms : List Metric) (group : DataGroup)
      → ◌≡◌ {A = DataGroup}
          (record (add_reading r m reading group) {
            values = filled (add_reading r m reading group).values (values_of r ms);
          })
          (record group { values = filled group.values (then_value r m reading (values_of r ms)) })
  add_then m none ms group = refl
  add_then m (some v) ms group = refl

  add_values_lem :
      (payload : RedfishPayload)
      → member payload.object "Members" ≡ none
      → (ms : List Metric) (before : List Json) (group : DataGroup) → Named ms
      → elements_of payload.array ≡ before ++ docs ms
      → add_values get_uri now r (length ms) (length before) payload group
        ≡ value (record group { values = filled group.values (values_of r ms) })
  unfolding add_values
  add_values_lem payload plain [] before group h holds = refl
  add_values_lem payload plain (m ∷ ms) before group h holds =
      let here = obj (metric_fields m) in
      let next = add_reading r m m.reading group in
      ap
        (λ o.
          add_fetched get_uri now r o (length before) group
          >>= add_values get_uri now r (length ms) (suc (length before)) payload)
        ((get_property_by_index-array get_uri payload plain before (docs ms) here holds).0
          ∙ resolve_metric m)
      ∙ ap (λ o. o >>= add_values get_uri now r (length ms) (suc (length before)) payload)
          (add_value_lem m m.reading (length before) group h.0)
      ∙ ap (λ n. add_values get_uri now r (length ms) n payload next)
          (omega (arith, length-append before (here ∷ [])))
      ∙ add_values_lem payload plain ms (before ++ here ∷ []) next h.1
          (holds ∙ sym (append_assoc before (here ∷ []) (docs ms)))
      ∙ ap value (add_then m m.reading ms group)

  -- From a report that holds metrics with ids, the group has the id, the name and the time of the
  -- report, and one value for each metric that has a reading: its id, context, label, reading and
  -- time, in order, with the names of the system and of the host.
  pub parse_report-report_object :
      (uri id name timestamp : String) (ms : List Metric)
      → Named ms
      → parse_report get_uri now r
          (record empty_payload { object = report_object uri id name timestamp ms })
        ≡ value (group_of_report r id name timestamp ms)
  unfolding parse_report get_property_by_name resolve get_uri_from_value value_to_payload member
  parse_report-report_object uri id name timestamp ms h =
      let payload = record empty_payload { array = some (elements (metric_items ms)) } in
      let group = record (group_of r) { id = id; label = name; timestamp = timestamp } in
      ap (λ n. add_values get_uri now r n zero payload group)
        (ap length (elements-metric_items ms) ∙ length-docs ms)
      ∙ add_values_lem payload refl ms [] group h (elements-metric_items ms)
      ∙ ap (λ vs. value (record group { values = vs })) (filled-none (values_of r ms))
