-- ===== src/Device/Listener.antt =====
-- pkg/redfishread/redfishdevice.go: the listeners for metric reports and for alerts.
-- The state of a listener is what its loop writes: the bus and the latest groups, how often it has
-- started the connection again, how often it has waited five minutes, and how many events have set
-- `LastEvent`. The receivers are those of the service when the loop runs.
pub mod Runs
use i_drac_telemetry_referen.Common.{
  ℕ, zero, suc, Bool, true, false, Option, none, some, List, [], ◌∷◌, String, if◌then◌else◌, Bytes,
}
use i_drac_telemetry_referen.Common.Ascii.{contains}
use i_drac_telemetry_referen.Common.Text.{codes}
use i_drac_telemetry_referen.Json.{JsonText, Json, str}
use i_drac_telemetry_referen.Redfish.{
  RedfishPayload, Outcome, value, failed, panics, exits, ◌>>=◌, member, as_text,
}
use i_drac_telemetry_referen.Service.{Bus}
use i_drac_telemetry_referen.Databus.{send_group}
use i_drac_telemetry_referen.Databus.Group.{DataGroup}
use i_drac_telemetry_referen.Databus.Groups.{DataGroups, add_data_group}
use i_drac_telemetry_referen.Device.{SystemDetail, parse_report, parse_redfish_events}

-- What comes over the channel: nil, an error, or an event with its payload or without.
pub data RedfishEvent : Type 0 where
  nil_event : RedfishEvent
  sse_error : Bytes → RedfishEvent
  event : Option RedfishPayload → RedfishEvent

pub record Listener (T : Type 0) : Type 0 where
  pub bus : Bus T
  pub groups : DataGroups
  pub restarts : ℕ
  pub waits : ℕ
  pub heard : ℕ

module _ (json : JsonText) (fails : ℕ → Option String) (receivers : List String)
    (get_uri : String → Outcome RedfishPayload) (now : ℕ → String) (r : SystemDetail) where
  open json use {Text}

  -- `SendGroup` and `AddDataGroup`
  unfoldable pub publish : Listener Text → DataGroup → Listener Text
  publish l group = record l {
    bus = send_group json fails l.bus receivers group;
    groups = add_data_group l.groups r.system_id group;
  }

  -- The group is published, unless there is none.
  abbrev published : Listener Text → Outcome DataGroup → Outcome (Listener Text)
  published l (value group) = value (publish l group)
  published l failed = value l
  published l panics = panics
  published l exits = exits

  -- `RestartMetricListener` or `RestartAlertListener`, after a wait for an error of the connection
  unfoldable pub restart : Listener Text → Bytes → Listener Text
  unfolding contains
  restart l text = record l {
    restarts = suc l.restarts;
    waits = (if contains text (codes "connection error") then suc l.waits else l.waits);
  }

  abbrev pub report_type : Listener Text → RedfishPayload → Option Json → Outcome (Listener Text)
  report_type l payload (some (str ot)) =
      if contains (codes ot) (codes ".MetricReport")
      then (as_text (member payload.object "@odata.id") >>= λ id.
          published l (parse_report get_uri now r payload))
      else value l
  report_type l payload o = value l

  abbrev on_report : Listener Text → Option RedfishPayload → Outcome (Listener Text)
  on_report l none = value l
  on_report l (some payload) = report_type l payload (member payload.object "@odata.type")

  -- One round of the loop of `StartMetricListener`
  unfoldable pub metric_step : Listener Text → RedfishEvent → Outcome (Listener Text)
  unfolding member parse_report publish restart
  metric_step l nil_event = value l
  metric_step l (sse_error text) = value (restart l text)
  metric_step l (event payload) = on_report (record l { heard = suc l.heard }) payload

  abbrev alert_type :
      String → Listener Text → RedfishPayload → Option Json → Outcome (Listener Text)
  alert_type hostname l payload (some (str ot)) =
      if contains (codes ot) (codes ".Event")
      then published l (parse_redfish_events get_uri now r hostname payload)
      else value l
  alert_type hostname l payload o = value l

  abbrev on_alert : String → Listener Text → Option RedfishPayload → Outcome (Listener Text)
  on_alert hostname l none = value l
  on_alert hostname l (some payload) =
      alert_type hostname l payload (member payload.object "@odata.type")

  -- One round of the loop of `StartAlertListener`
  unfoldable pub alert_step : String → Listener Text → RedfishEvent → Outcome (Listener Text)
  unfolding member parse_redfish_events publish restart
  alert_step hostname l nil_event = value l
  alert_step hostname l (sse_error text) = value (restart l text)
  alert_step hostname l (event payload) =
      on_alert hostname (record l { heard = suc l.heard }) payload

  -- `StartMetricListener` over the events of its channel
  unfoldable pub start_metric_listener : Listener Text → List RedfishEvent → Outcome (Listener Text)
  unfolding metric_step
  start_metric_listener l [] = value l
  start_metric_listener l (e ∷ es) = metric_step l e >>= λ l'. start_metric_listener l' es

  -- `StartAlertListener` over the events of its channel
  unfoldable pub start_alert_listener :
      String → Listener Text → List RedfishEvent → Outcome (Listener Text)
  unfolding alert_step
  start_alert_listener hostname l [] = value l
  start_alert_listener hostname l (e ∷ es) =
      alert_step hostname l e >>= λ l'. start_alert_listener hostname l' es
