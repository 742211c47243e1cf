-- ===== src/Device/Listener/Runs.antt =====
-- The listener for metric reports over any events that a device sends.
use i_drac_telemetry_referen.Common.{
  ℕ, suc, Bool, false, ◌+◌, arith, ◌≡◌, refl, ap, ◌∙◌, Option, none, some, List, [], ◌∷◌, String,
  Bytes,
}
use i_drac_telemetry_referen.Common.Ascii.{contains, has_prefix}
use i_drac_telemetry_referen.Common.Text.{codes}
use i_drac_telemetry_referen.Json.{JsonText, Json, null, bool, num, str, arr, obj}
use i_drac_telemetry_referen.Redfish.{RedfishPayload, Outcome, value, empty_payload, member, ◌>>=◌}
use i_drac_telemetry_referen.Service.{Bus}
use i_drac_telemetry_referen.Databus.{send_group}
use i_drac_telemetry_referen.Databus.Group.{DataGroup}
use i_drac_telemetry_referen.Databus.Groups.{DataGroups, add_data_group}
use i_drac_telemetry_referen.Device.{SystemDetail}
use i_drac_telemetry_referen.Device.Reports.{
  Metric, Named, report_object, group_of_report, parse_report-report_object,
}
use i_drac_telemetry_referen.Device.Listener.{
  RedfishEvent, nil_event, sse_error, event, Listener, report_type, publish, published, restart,
  metric_step, start_metric_listener,
}

-- What happens on the connection: nothing, an error, an empty event, an event that is no report, or
-- a report with its metrics.
pub data Happening : Type 0 where
  silence : Happening
  broken : Bytes → Happening
  empty : Happening
  other : RedfishPayload → Happening
  report : (uri id name timestamp : String) → List Metric → Happening

abbrev pub event_of : Happening → RedfishEvent
event_of silence = nil_event
event_of (broken text) = sse_error text
event_of empty = event none
event_of (other payload) = event (some payload)
event_of (report uri id name timestamp ms) =
    event (some (record empty_payload { object = report_object uri id name timestamp ms }))

abbrev pub events_of : List Happening → List RedfishEvent
events_of [] = []
events_of (h ∷ hs) = event_of h ∷ events_of hs

abbrev pub is_report : Option Json → Bool
is_report (some (str ot)) = contains (codes ot) (codes ".MetricReport")
is_report o = false

-- The metrics of reports have ids, and the type of other events is not that of a report.
abbrev pub AllNamed : List Happening → Type 0
AllNamed [] = Unit
AllNamed (report uri id name timestamp ms ∷ hs) = Named ms × AllNamed hs
AllNamed (other payload ∷ hs) =
    (is_report (member payload.object "@odata.type") ≡ false) × AllNamed hs
AllNamed (h ∷ hs) = AllNamed hs

abbrev pub errors_in : List Happening → ℕ
errors_in [] = 0
errors_in (broken text ∷ hs) = suc (errors_in hs)
errors_in (h ∷ hs) = errors_in hs

module _ (json : JsonText) (fails : ℕ → Option String) where
  open json use {Text}

  -- The groups of the reports, in order
  abbrev pub groups_in : SystemDetail → List Happening → List DataGroup
  groups_in r [] = []
  groups_in r (report uri id name timestamp ms ∷ hs) =
      group_of_report r id name timestamp ms ∷ groups_in r hs
  groups_in r (h ∷ hs) = groups_in r hs

  abbrev pub send_all : Bus Text → List String → List DataGroup → Bus Text
  send_all bus receivers [] = bus
  send_all bus receivers (g ∷ gs) = send_all (send_group json fails bus receivers g) receivers gs

  abbrev pub add_all : DataGroups → String → List DataGroup → DataGroups
  add_all groups system [] = groups
  add_all groups system (g ∷ gs) = add_all (add_data_group groups system g) system gs

  module _ (receivers : List String) (get_uri : String → Outcome RedfishPayload) (now : ℕ → String)
      (r : SystemDetail) where
    -- What the listener has done when it has gone through the happenings.
    pub record Served (l l' : Listener Text) (hs : List Happening) : Type 0 where
      bus_done : l'.bus ≡ send_all l.bus receivers (groups_in r hs)
      groups_done : l'.groups ≡ add_all l.groups r.system_id (groups_in r hs)
      restarts_done : l'.restarts ≡ l.restarts + errors_in hs

    abbrev after_report : Listener Text → String → String → String → List Metric → Listener Text
    after_report l id name timestamp ms =
        publish json fails receivers get_uri now r (record l { heard = suc l.heard })
          (group_of_report r id name timestamp ms)

    step_report :
        (l : Listener Text) (uri id name timestamp : String) (ms : List Metric)
        → Named ms
        → metric_step json fails receivers get_uri now r l
            (event_of (report uri id name timestamp ms))
          ≡ value (after_report l id name timestamp ms)
    unfolding metric_step member contains has_prefix
    step_report l uri id name timestamp ms h =
        ap (published json fails receivers get_uri now r (record l { heard = suc l.heard }))
          (parse_report-report_object get_uri now r uri id name timestamp ms h)

    step_type :
        (l : Listener Text) (payload : RedfishPayload) (o : Option Json)
        → is_report o ≡ false
        → report_type json fails receivers get_uri now r l payload o ≡ value l
    step_type l payload none h = refl
    step_type l payload (some (str ot)) h = rw h refl
    step_type l payload (some (arr js)) h = refl
    step_type l payload (some (obj fields)) h = refl
    step_type l payload (some null) h = refl
    step_type l payload (some (bool b)) h = refl
    step_type l payload (some (num n)) h = refl

    step_other :
        (l : Listener Text) (payload : RedfishPayload)
        → is_report (member payload.object "@odata.type") ≡ false
        → metric_step json fails receivers get_uri now r l (event (some payload))
          ≡ value (record l { heard = suc l.heard })
    unfolding metric_step
    step_other l payload h =
        step_type (record l { heard = suc l.heard }) payload (member payload.object "@odata.type") h

    -- Through silences, errors, empty events, events whose type is not that of a report, and reports
    -- of the layout of `report_object` whose metrics have ids, in any order: the listener goes on to
    -- the end. Every report has then been sent to the receivers and added to the latest groups, in order, and
    -- the connection has been started again once for each error.
    pub start_metric_listener-Served :
        (l : Listener Text) (hs : List Happening)
        → AllNamed hs
        → (l' : Listener Text) × (start_metric_listener json fails receivers get_uri now r l
              (events_of hs)
            ≡ value l')
          × Served l l' hs
    unfolding start_metric_listener metric_step
    start_metric_listener-Served l [] h =
        (l, refl, record { bus_done = refl; groups_done = refl; restarts_done = omega arith })
    start_metric_listener-Served l (silence ∷ hs) h =
        let (l', e, s) = start_metric_listener-Served l hs h in
        (
          l',
          e,
          record {
            bus_done = s.bus_done;
            groups_done = s.groups_done;
            restarts_done = s.restarts_done;
          },
        )
    start_metric_listener-Served l (broken text ∷ hs) h =
        let (l', e, s) =
          start_metric_listener-Served (restart json fails receivers get_uri now r l text) hs h in
        (
          l',
          e,
          record {
            bus_done = s.bus_done;
            groups_done = s.groups_done;
            restarts_done = omega (arith, s.restarts_done);
          },
        )
    start_metric_listener-Served l (empty ∷ hs) h =
        let (l', e, s) = start_metric_listener-Served (record l { heard = suc l.heard }) hs h in
        (
          l',
          e,
          record {
            bus_done = s.bus_done;
            groups_done = s.groups_done;
            restarts_done = s.restarts_done;
          },
        )
    start_metric_listener-Served l (other payload ∷ hs) h =
        let (l', e, s) = start_metric_listener-Served (record l { heard = suc l.heard }) hs h.1 in
        (
          l',
          ap
                (λ o. o >>= λ k.
                  start_metric_listener json fails receivers get_uri now r k (events_of hs))
                (step_other l payload h.0)
              ∙ e,
          record {
            bus_done = s.bus_done;
            groups_done = s.groups_done;
            restarts_done = s.restarts_done;
          },
        )
    start_metric_listener-Served l (report uri id name timestamp ms ∷ hs) h =
        let (l', e, s) =
          start_metric_listener-Served (after_report l id name timestamp ms) hs h.1 in
        (
          l',
          ap
                (λ o. o >>= λ k.
                  start_metric_listener json fails receivers get_uri now r k (events_of hs))
                (step_report l uri id name timestamp ms h.0)
              ∙ e,
          record {
            bus_done = s.bus_done;
            groups_done = s.groups_done;
            restarts_done = s.restarts_done;
          },
        )
