-- ===== src/Device/Alerts.antt =====
-- Alerts as a device writes them, and the group that comes of them.
use i_drac_telemetry_referen.Common.{
  ℕ, zero, suc, Bool, false, ◌≡◌, refl, sym, ap, ◌∙◌, some, List, [], ◌∷◌, ◌++◌, String,
  if◌then◌else◌, arith, Bool-cases, inl, inr, length, length-append, append_assoc,
}
use i_drac_telemetry_referen.Common.Text.{◌==◌}
use i_drac_telemetry_referen.Json.{Json, Items, Fields, str, arr, obj, nil, cons, end, field}
use i_drac_telemetry_referen.Redfish.{
  RedfishPayload, Outcome, value, failed, ◌>>=◌, member, size, elements, empty_payload,
  get_property_by_name, resolve, get_uri_from_value, value_to_payload,
}
use i_drac_telemetry_referen.Redfish.Index.{get_event_by_index-element}
use i_drac_telemetry_referen.Databus.Group.{EventValue, DataGroup}
use i_drac_telemetry_referen.Device.{
  SystemDetail, group_of, append_to, add_event, add_events, parse_redfish_events, text_items,
  origin, event_value, appended,
}
use i_drac_telemetry_referen.Device.Slices.{filled, filled-none, slice_of}

pub record Alert : Type 0 where
  pub event_id : String
  pub event_type : String
  pub timestamp : String
  pub member_id : String
  pub severity : String
  pub message : String
  pub message_id : String
  pub args : List String
  pub origin_uri : String

abbrev pub arg_items : List String → Items
arg_items [] = nil
arg_items (a ∷ args) = cons (str a) (arg_items args)

-- The origin of an alert is a link.
abbrev pub alert_fields : Alert → Fields
alert_fields a = field "EventId" (str a.event_id) (
    field "EventType" (str a.event_type) (
      field "EventTimestamp" (str a.timestamp) (
        field "MemberId" (str a.member_id) (
          field "MessageSeverity" (str a.severity) (
            field "Message" (str a.message) (
              field "MessageId" (str a.message_id) (
                field "MessageArgs" (arr (arg_items a.args)) (
                  field "OriginOfCondition" (obj (field "@odata.id" (str a.origin_uri) end))
                    end))))))))

abbrev pub alert_items : List Alert → Items
alert_items [] = nil
alert_items (a ∷ rest) = cons (obj (alert_fields a)) (alert_items rest)

abbrev pub events_object : String → List Alert → Fields
events_object id alerts =
    field "@odata.type" (str "#Event.v1_5_0.Event")
      (field "Id" (str id) (field "Events" (arr (alert_items alerts)) end))

-- The event value of an alert, with the text that its origin comes to.
abbrev pub value_of : Alert → String → EventValue
value_of a origin = record {
  event_type = a.event_type;
  event_id = a.event_id;
  event_timestamp = a.timestamp;
  member_id = a.member_id;
  message_severity = a.severity;
  message = a.message;
  message_id = a.message_id;
  message_args = slice_of a.args;
  origin_of_condition = origin;
}

module _ (get_uri : String → Outcome RedfishPayload) (now : ℕ → String) (r : SystemDetail)
    (found : String → Bool)
    (answers : (uri : String)
      → get_uri uri ≡ (
          if found uri
          then value (record empty_payload { object = field "@odata.id" (str uri) end })
          else failed)) where
  -- The address of the origin, if it can be fetched.
  abbrev origin_of : String → String
  origin_of uri = if found uri then uri else ""

  abbrev pub values_of : List Alert → List EventValue
  values_of [] = []
  values_of (a ∷ rest) = value_of a (origin_of a.origin_uri) ∷ values_of rest

  text_items-arg_items :
      (args : List String) → text_items get_uri now r (arg_items args) ≡ value args
  unfolding text_items
  text_items-arg_items [] = refl
  text_items-arg_items (a ∷ args) =
      ap (λ o. o >>= λ rest. value (a ∷ rest)) (text_items-arg_items args)

  appended-slice_of : (args : List String) → appended get_uri now r args ≡ slice_of args
  appended-slice_of [] = refl
  appended-slice_of (a ∷ args) = refl

  origin_lem :
      (a : Alert)
      → (a.origin_uri == "") ≡ false
      → origin get_uri now r (
          get_property_by_name get_uri
            (record empty_payload { object = alert_fields a })
            "OriginOfCondition")
        ≡ value (origin_of a.origin_uri)
  unfolding get_property_by_name resolve get_uri_from_value value_to_payload member size
  origin_lem a named = elim (Bool-cases (found a.origin_uri)) [
    | inl e ↦ rw named (rw (answers a.origin_uri) (rw e))
    | inr e ↦ rw named (rw (answers a.origin_uri) (rw e))
  ]

  resolve_alert :
      (a : Alert)
      → resolve get_uri (obj (alert_fields a))
        ≡ value (record empty_payload { object = alert_fields a })
  unfolding resolve get_uri_from_value value_to_payload member size
  resolve_alert a = refl

  with_event : Alert → DataGroup → DataGroup
  with_event a group = record group {
    events = append_to group.events (value_of a (origin_of a.origin_uri));
  }

  add_event_lem :
      (a : Alert) (group : DataGroup)
      → (a.origin_uri == "") ≡ false
      → add_event get_uri now r (record empty_payload { object = alert_fields a }) group
        ≡ value (with_event a group)
  unfolding add_event member with_event
  add_event_lem a group named =
      ap
        (λ o. o >>= λ u.
          (text_items get_uri now r (arg_items a.args) >>= λ args.
          value (appended get_uri now r args))
          >>= λ slice. value (record group {
            events = append_to group.events (event_value get_uri now r (alert_fields a) u slice);
          }))
        (origin_lem a named)
      ∙ ap
          (λ o. (o >>= λ args. value (appended get_uri now r args)) >>= λ slice.
            value (record group {
              events =
                  append_to group.events
                    (event_value get_uri now r (alert_fields a) (origin_of a.origin_uri) slice);
            }))
          (text_items-arg_items a.args)
      ∙ ap
          (λ slice. value (record group {
            events =
                append_to group.events
                  (event_value get_uri now r (alert_fields a) (origin_of a.origin_uri) slice);
          }))
          (appended-slice_of a.args)

  abbrev docs : List Alert → List Json
  docs [] = []
  docs (a ∷ rest) = obj (alert_fields a) ∷ docs rest

  elements-alert_items : (alerts : List Alert) → elements (alert_items alerts) ≡ docs alerts
  unfolding elements
  elements-alert_items [] = refl
  elements-alert_items (a ∷ rest) = ap (λ js. obj (alert_fields a) ∷ js) (elements-alert_items rest)

  length-docs : (alerts : List Alert) → length (docs alerts) ≡ length alerts
  length-docs [] = refl
  length-docs (a ∷ rest) = ap suc (length-docs rest)

  abbrev pub Linked : List Alert → Type 0
  Linked [] = Unit
  Linked (a ∷ rest) = ((a.origin_uri == "") ≡ false) × Linked rest

  module _ (events : RedfishPayload) (items : Items)
      (collection : member events.object "Events" ≡ some (arr items)) where
    add_events_lem :
        (alerts : List Alert) (before : List Json) (group : DataGroup)
        → Linked alerts
        → elements items ≡ before ++ docs alerts
        → add_events get_uri now r (length alerts) (length before) events group
          ≡ value (record group { events = filled group.events (values_of alerts) })
    unfolding add_events with_event
    add_events_lem [] before group h holds = refl
    add_events_lem (a ∷ rest) before group h holds =
        let here = obj (alert_fields a) in
        ap
          (λ o. o >>= λ event.
            add_event get_uri now r event group
            >>= add_events get_uri now r (length rest) (suc (length before)) events)
          (get_event_by_index-element get_uri events before (docs rest) here items collection holds
            ∙ resolve_alert a)
        ∙ ap (λ o. o >>= add_events get_uri now r (length rest) (suc (length before)) events)
            (add_event_lem a group h.0)
        ∙ ap (λ n. add_events get_uri now r (length rest) n events (with_event a group))
            (omega (arith, length-append before (here ∷ [])))
        ∙ add_events_lem rest (before ++ here ∷ []) (with_event a group) h.1
            (holds ∙ sym (append_assoc before (here ∷ []) (docs rest)))

  -- From alerts whose origins are links, each of which is answered by its resource or by an error,
  -- the group has one event value for each alert, in order, with the address of its origin or, where
  -- that cannot be fetched, an empty one.
  pub parse_redfish_events-events_object :
      (hostname id : String) (alerts : List Alert)
      → Linked alerts
      → parse_redfish_events get_uri now r hostname
          (record empty_payload { object = events_object id alerts })
        ≡ value (record (group_of r) {
          host_id = hostname;
          id = id;
          events = slice_of (values_of alerts);
        })
  unfolding parse_redfish_events get_property_by_name resolve get_uri_from_value value_to_payload
      member
  parse_redfish_events-events_object hostname id alerts h =
      let payload = record empty_payload { object = events_object id alerts } in
      let group = record (group_of r) { host_id = hostname; id = id } in
      ap (λ n. add_events get_uri now r n zero payload group)
        (ap length (elements-alert_items alerts) ∙ length-docs alerts)
      ∙ add_events_lem payload (alert_items alerts) refl alerts [] group h
          (elements-alert_items alerts)
      ∙ ap (λ es. value (record group { events = es })) (filled-none (values_of alerts))
