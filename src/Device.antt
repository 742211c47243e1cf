-- ===== src/Device.antt =====
-- pkg/redfishread/redfishdevice.go: what a device makes of metric reports and of alerts.
-- The clock gives the text of the time for a metric that has none; `GetUri` is a parameter.
pub mod Labels
pub mod Slices
pub mod Reports
pub mod Alerts
pub mod Listener
pub mod Stream
use i_drac_telemetry_referen.Common.{
  ℕ, zero, suc, Bool, true, false, Option, none, some, List, [], ◌∷◌, ◌++◌, String, if◌then◌else◌,
}
use i_drac_telemetry_referen.Common.Text.{◌==◌}
use i_drac_telemetry_referen.Json.{Json, Items, Fields, null, str, arr, nil, cons}
use i_drac_telemetry_referen.Redfish.{
  RedfishPayload, Outcome, value, failed, panics, exits, ◌>>=◌, member, has, as_text, as_object,
  text_or_empty, get_array_size, get_property_by_name, get_property_by_index, get_event_by_index,
}
use i_drac_telemetry_referen.Databus.Group.{DataValue, EventValue, DataGroup}
use Labels.{get_value_id_context_and_label}

pub record SystemDetail : Type 0 where
  pub system_id : String
  pub host_name : String
  pub model : String
  pub sku : String
  pub fw_ver : String
  pub fqdn : String
  pub img_id : String

abbrev pub group_of : SystemDetail → DataGroup
group_of r = record {
  host_id = "";
  id = "";
  label = "";
  sequence = "";
  system = r.system_id;
  host_name = r.host_name;
  model = r.model;
  sku = r.sku;
  fqdn = r.fqdn;
  fw_ver = r.fw_ver;
  img_id = r.img_id;
  timestamp = "";
  values = none;
  events = none;
}

-- append(slice, x)
abbrev pub append_to {ℓ} : {A : Type ℓ} → Option (List A) → A → Option (List A)
append_to none x = some (x ∷ [])
append_to (some xs) x = some (xs ++ x ∷ [])

module _ (get_uri : String → Outcome RedfishPayload) (now : ℕ → String) (r : SystemDetail) where
  abbrev timestamp_of : Fields → ℕ → Outcome String
  timestamp_of metric j =
      if has (member metric "Timestamp") then as_text (member metric "Timestamp") else value (now j)

  abbrev data_value : String × String × String → String → String → DataValue
  data_value (id, context, label) v timestamp = record {
    id = id;
    context = context;
    label = label;
    value = v;
    system = r.system_id;
    host_name = r.host_name;
    timestamp = timestamp;
  }

  -- One metric value of a report, with what is added to the group's values.
  unfoldable pub add_value : Fields → ℕ → DataGroup → Outcome DataGroup
  unfolding member get_value_id_context_and_label
  add_value metric j group =
      if has (member metric "MetricValue")
      then (get_value_id_context_and_label metric j >>= λ names.
          as_text (member metric "MetricValue") >>= λ v. timestamp_of metric j >>= λ t.
          value (record group { values = append_to group.values (data_value names v t) }))
      else value group

  -- A value that cannot be fetched is passed over.
  abbrev add_fetched : Outcome RedfishPayload → ℕ → DataGroup → Outcome DataGroup
  add_fetched (value metric) j group = add_value metric.object j group
  add_fetched failed j group = value group
  add_fetched panics j group = panics
  add_fetched exits j group = exits

  -- The loop over the indices from j
  unfoldable pub add_values : ℕ → ℕ → RedfishPayload → DataGroup → Outcome DataGroup
  unfolding get_property_by_index add_value
  add_values zero j metric_values group = value group
  add_values (suc rounds) j metric_values group =
      add_fetched (get_property_by_index get_uri metric_values j) j group
      >>= add_values rounds (suc j) metric_values

  abbrev named_group : Fields → Outcome DataGroup
  named_group report = as_text (member report "Id") >>= λ id.
      as_text (member report "Name") >>= λ label. as_text (member report "Timestamp") >>= λ t.
      value (record (group_of r) { id = id; label = label; timestamp = t })

  abbrev reported : Fields → RedfishPayload → Outcome DataGroup
  reported report metric_values =
      named_group report >>= add_values (get_array_size metric_values) zero metric_values

  -- `parseReport`, up to the sending of the group; `failed` when there are no metric values.
  unfoldable pub parse_report : RedfishPayload → Outcome DataGroup
  unfolding member get_property_by_name add_values
  parse_report report =
      get_property_by_name get_uri report "MetricValues" >>= reported report.object

  abbrev origin : Outcome RedfishPayload → Outcome String
  origin (value payload) = as_text (member payload.object "@odata.id")
  origin failed = value ""
  origin panics = panics
  origin exits = exits

  unfoldable pub text_items : Items → Outcome (List String)
  text_items nil = value []
  text_items (cons (str a) rest) = text_items rest >>= λ args. value (a ∷ args)
  text_items (cons j rest) = panics

  -- The range over the arguments, which appends to a nil slice.
  abbrev pub appended : List String → Option (List String)
  appended [] = none
  appended (a ∷ args) = some (a ∷ args)

  abbrev message_args : Option Json → Outcome (Option (List String))
  message_args none = value none
  message_args (some null) = value none
  message_args (some (arr items)) = text_items items >>= λ args. value (appended args)
  message_args (some j) = panics

  abbrev event_value : Fields → String → Option (List String) → EventValue
  event_value event origin args = record {
    event_type = text_or_empty (member event "EventType");
    event_id = text_or_empty (member event "EventId");
    event_timestamp = text_or_empty (member event "EventTimestamp");
    member_id = text_or_empty (member event "MemberId");
    message_severity = text_or_empty (member event "MessageSeverity");
    message = text_or_empty (member event "Message");
    message_id = text_or_empty (member event "MessageId");
    message_args = args;
    origin_of_condition = origin;
  }

  -- One event, with what is added to the group's events.
  unfoldable pub add_event : RedfishPayload → DataGroup → Outcome DataGroup
  unfolding member get_property_by_name text_items
  add_event event group =
      if has (member event.object "EventId")
      then (origin (get_property_by_name get_uri event "OriginOfCondition") >>= λ o.
          message_args (member event.object "MessageArgs") >>= λ args.
          value
            (record group { events = append_to group.events (event_value event.object o args) }))
      else value group

  -- The loop over the indices from j, which ends the function at an event that cannot be fetched.
  unfoldable pub add_events : ℕ → ℕ → RedfishPayload → DataGroup → Outcome DataGroup
  unfolding get_event_by_index add_event
  add_events zero j events group = value group
  add_events (suc rounds) j events group = get_event_by_index get_uri events j >>= λ event.
      add_event event group >>= add_events rounds (suc j) events

  -- `parseRedfishEvents` with the client's host name, up to the sending of the group; `failed` where
  -- it returns before.
  unfoldable pub parse_redfish_events : String → RedfishPayload → Outcome DataGroup
  unfolding member get_property_by_name add_events
  parse_redfish_events hostname events =
      get_property_by_name get_uri events "Events" >>= λ event_data.
      add_events (get_array_size event_data) zero events
        (record (group_of r) { host_id = hostname; id = text_or_empty (member events.object "Id") })
