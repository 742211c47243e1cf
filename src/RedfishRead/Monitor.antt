-- ===== src/RedfishRead/Monitor.antt =====
-- What the start of a monitor leaves.
use i_drac_telemetry_referen.Common.{
  Bool, true, false, ◌≡◌, refl, subst, ◌&&◌, ◌||◌, inl, inr, Option, none, some, List, [], ◌∷◌,
  String, Bool-cases, if◌then◌else◌,
}
use i_drac_telemetry_referen.Common.Int.{ℤ}
use i_drac_telemetry_referen.Common.Text.{◌==◌}
use i_drac_telemetry_referen.Redfish.{
  RedfishPayload, Outcome, value, failed, panics, exits, ◌>>=◌, get_property_by_name,
}
use i_drac_telemetry_referen.RedfishRead.{
  Client, no_client, nil_client, client, RedfishDevice, Numbers, Answers, Started,
  redfish_monitor_start, with_service, with_root, with_id, with_client, children_if,
  populate_child_chassis, detail_of,
}

-- The state is among those that the authorization service has been told.
abbrev pub told : String → List (String × String) → Bool
told state [] = false
told state ((s, host) ∷ updates) = s == state || told state updates

bool_and_false : (b : Bool) → false ≡ (b && false)
bool_and_false true = refl
bool_and_false false = refl

module _ (numbers : Numbers) (answers : Answers) (include_alerts : Bool) where
  -- The listeners and the state of the device, by what has been told.
  abbrev pub Agrees : String → Started numbers answers → Type 0
  Agrees before s =
      (s.metrics ≡ told "Running" s.updates)
      × (s.alerts ≡ (include_alerts && (told "Running" s.updates || told "Monitoring" s.updates)))
      × (s.device.state ≡ (
          if s.metrics || s.alerts
          then "Running"
          else if told "Monitoring" s.updates
          then "Running Only Alerts"
          else before))

  abbrev pub AgreesIfDone : String → Outcome (Started numbers answers) → Type 0
  AgreesIfDone before (value s) = Agrees before s
  AgreesIfDone before o = Unit

  with_service-Agrees :
      (b : Bool)
      → b ≡ include_alerts
      → (hostname : String) (device : RedfishDevice) (telemetry : Outcome RedfishPayload)
      → AgreesIfDone device.state (with_service numbers answers b hostname device telemetry)
  with_service-Agrees true e hostname device (value t) = (refl, rw (← e), refl)
  with_service-Agrees false e hostname device (value t) = (refl, rw (← e), refl)
  with_service-Agrees true e hostname device failed = (refl, rw (← e), refl)
  with_service-Agrees false e hostname device failed = (refl, rw (← e), refl)
  with_service-Agrees b e hostname device panics = tt
  with_service-Agrees b e hostname device exits = tt

  with_children-Agrees :
      (hostname : String) (device : RedfishDevice) (children : Outcome (List (ℤ × String)))
      (telemetry : Outcome RedfishPayload)
      → AgreesIfDone device.state (
          (children >>= λ c. value (record device { child_devices = c })) >>= λ d.
          with_service numbers answers include_alerts hostname d telemetry)
  with_children-Agrees hostname device (value c) telemetry =
      with_service-Agrees include_alerts refl hostname (record device { child_devices = c })
        telemetry
  with_children-Agrees hostname device failed telemetry = tt
  with_children-Agrees hostname device panics telemetry = tt
  with_children-Agrees hostname device exits telemetry = tt

  with_children_if-Agrees :
      (hostname : String) (device : RedfishDevice) (b : Bool) (root : RedfishPayload)
      (telemetry : Outcome RedfishPayload)
      → AgreesIfDone device.state (
          children_if numbers answers b device root >>= λ d.
          with_service numbers answers include_alerts hostname d telemetry)
  with_children_if-Agrees hostname device true root telemetry =
      with_children-Agrees hostname device (populate_child_chassis numbers answers root) telemetry
  with_children_if-Agrees hostname device false root telemetry =
      with_service-Agrees include_alerts refl hostname device telemetry

  with_root-Agrees :
      (hostname : String) (device : RedfishDevice) (root : Outcome RedfishPayload)
      → AgreesIfDone device.state (with_root numbers answers include_alerts hostname device root)
  with_root-Agrees hostname device (value root) =
      with_children_if-Agrees hostname device device.has_children root
        (get_property_by_name answers.get_uri root "TelemetryService")
  with_root-Agrees hostname device failed = (refl, bool_and_false include_alerts, refl)
  with_root-Agrees hostname device panics = tt
  with_root-Agrees hostname device exits = tt

  with_id-Agrees :
      (hostname : String) (device : RedfishDevice) (id : Option String)
      → AgreesIfDone device.state (with_id numbers answers include_alerts hostname device id)
  with_id-Agrees hostname device none = (refl, bool_and_false include_alerts, refl)
  with_id-Agrees hostname device (some id) = elim (Bool-cases (id == "")) [
    | inl e ↦ rw e (refl, bool_and_false include_alerts, refl)
    | inr e ↦ rw e (
        with_root-Agrees hostname
          (record device { detail = detail_of numbers answers id answers.get_sys_info })
          (answers.get_uri "/redfish/v1"))
  ]

  with_client-Agrees :
      (device : RedfishDevice) (c : Client)
      → AgreesIfDone device.state (with_client numbers answers include_alerts device c)
  with_client-Agrees device no_client = tt
  with_client-Agrees device nil_client = tt
  with_client-Agrees device (client hostname username) =
      with_id-Agrees hostname device answers.get_system_id

  -- When the start of a monitor is done: the listener for metrics runs exactly when the authorization
  -- service has been told Running, that for alerts when they are included and it has been told
  -- Running or Monitoring. The state is Running exactly when one of them runs, so that a device is
  -- said to be Running Only Alerts only while no alerts are listened to.
  pub redfish_monitor_start-Agrees :
      (device : RedfishDevice) (s : Started numbers answers)
      → redfish_monitor_start numbers answers include_alerts device ≡ value s
      → Agrees device.state s
  unfolding redfish_monitor_start
  redfish_monitor_start-Agrees device s done =
      subst (AgreesIfDone device.state) done (with_client-Agrees device device.redfish)
