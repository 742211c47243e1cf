-- ===== src/RedfishRead.antt =====
-- pkg/redfishread/redfishread.go: the devices, and what is done for a new one.
-- `Init` and `InitBearer` answer with an error or with none; `Answers` is what the device answers to
-- the client's methods. A method of a client that is nil panics.
pub mod Main
pub mod Devices
pub mod Systems
pub mod Monitor
use i_drac_telemetry_referen.Common.{
  ℕ, zero, suc, Bool, true, false, not, ◌&&◌, ◌||◌, Option, none, some, List, [], ◌∷◌, ◌++◌, String,
  if◌then◌else◌, leb,
}
use i_drac_telemetry_referen.Common.Ascii.{has_prefix}
use i_drac_telemetry_referen.Common.Dict
use i_drac_telemetry_referen.Common.Dict.{Dict}
use i_drac_telemetry_referen.Common.Int.{ℤ, pos, negsuc}
use i_drac_telemetry_referen.Common.Text.{◌==◌, append, codes}
use i_drac_telemetry_referen.Json.{Json, Fields}
use i_drac_telemetry_referen.Redfish.{
  RedfishPayload, Outcome, value, failed, panics, exits, ◌>>=◌, member, has, as_text,
  get_property_by_name, get_property_by_index,
}
use i_drac_telemetry_referen.Auth.{
  Service, auth_type_username_password, auth_type_bearer_token, msm,
}
use i_drac_telemetry_referen.Device.{SystemDetail}

-- A client: a nil interface, an interface that holds a nil pointer, or a client with its host and its
-- user.
pub data Client : Type 0 where
  no_client : Client
  nil_client : Client
  client : (hostname username : String) → Client

pub record RedfishDevice : Type 0 where
  pub has_children : Bool
  pub redfish : Client
  pub detail : SystemDetail
  pub child_devices : List (ℤ × String)
  pub state : String
  pub last_event : String

abbrev pub empty_detail : SystemDetail
empty_detail = record {
  system_id = "";
  host_name = "";
  model = "";
  sku = "";
  fw_ver = "";
  fqdn = "";
  img_id = "";
}

-- Equality of integers
abbrev pub eq_int : ℤ → ℤ → Bool
eq_int (pos m) (pos n) = leb m n && leb n m
eq_int (negsuc m) (negsuc n) = leb m n && leb n m
eq_int i j = false

abbrev colons : String → ℕ
colons String.[] = 0
colons (String.◌∷◌ c s) = if String.◌∷◌ c "" == ":" then suc (colons s) else colons s

-- The host of a client after `GetUri`: an IPv6 address is put in brackets.
unfoldable pub host_of : String → String
unfolding append
host_of hostname = if leb 2 (colons hostname) then append "[" (append hostname "]") else hostname

abbrev pub secret : Option (Dict String) → String → String
secret none key = ""
secret (some m) key = elim (Dict.get m key) [ none ↦ "" | some v ↦ v ]

module _ (init : String → String → String → ℤ → Option String)
    (init_bearer : String → String → Option String) where
  -- The client that `InitBearer` returns: a nil pointer with its error.
  abbrev bearer_client : Service → Option String → Client
  bearer_client service none = client (host_of service.ip) ""
  bearer_client service (some e) = nil_client

  abbrev new_client : Service → Client × Option String
  new_client service =
      if eq_int service.auth_type auth_type_username_password
      then (
        client (host_of service.ip) (secret service.auth "username"),
        init service.ip (secret service.auth "username") (secret service.auth "password")
            service.service_type,
      )
      else if eq_int service.auth_type auth_type_bearer_token
      then (
        bearer_client service (init_bearer service.ip (secret service.auth "token")),
        init_bearer service.ip (secret service.auth "token"),
      )
      else (no_client, none)

  abbrev new_state : Option String → String
  new_state none = "Starting"
  new_state (some e) = "Connection Failed"

  abbrev new_device : Service → Client × Option String → RedfishDevice
  new_device service (r, err) = record {
    has_children = eq_int service.service_type msm;
    redfish = r;
    detail = empty_detail;
    child_devices = [];
    state = new_state err;
    last_event = "";
  }

  -- The devices, what is returned for the device, and the error
  abbrev Added : Type 0
  Added = Dict RedfishDevice × Option RedfishDevice × Option String

  abbrev add_device : Service → Dict RedfishDevice → Client × Option String → Added
  add_device service devices (r, err) =
      let device = new_device service (r, err) in
      (Dict.put devices service.ip device, some device, err)

  abbrev add_new : Service → Dict RedfishDevice → Option RedfishDevice → Added
  add_new service devices none = add_device service devices (new_client service)
  add_new service devices (some device) =
      (devices, none, some (append "Device with IP " (append service.ip " already exists")))

  -- `ValidateAndAddDevice`
  unfoldable pub validate_and_add_device : Service → Dict RedfishDevice → Added
  unfolding host_of
  validate_and_add_device service devices =
      if service.ip == ""
      then (devices, none, some "ServiceIP is empty")
      else add_new service devices (Dict.get devices service.ip)

-- The results of `GetSysInfo`; its error may come with some of them.
pub record SysInfo : Type 0 where
  pub host_name : String
  pub sku : String
  pub model : String
  pub fw_ver : String
  pub fqdn : String
  pub img_id : String
  pub error : Bool

pub record Answers : Type 0 where
  pub get_system_id : Option String
  pub get_sys_info : SysInfo
  pub get_uri : String → Outcome RedfishPayload

-- What `Atoi` returns beside its error, and `int` of a float64
pub record Numbers : Type 0 where
  pub atoi : String → ℤ
  pub int_of : String → ℕ

abbrev put_child : List (ℤ × String) → ℤ → String → List (ℤ × String)
put_child [] i sku = (i, sku) ∷ []
put_child ((j, old) ∷ rest) i sku =
    if eq_int j i then (i, sku) ∷ rest else (j, old) ∷ put_child rest i sku

-- The second part of a text that is split at "-", if it has one
unfoldable pub before_dash : String → String
before_dash String.[] = String.[]
before_dash (String.◌∷◌ c s) =
    let rest = before_dash s in if String.◌∷◌ c "" == "-" then String.[] else String.◌∷◌ c rest

unfoldable pub after_dash : String → String
after_dash String.[] = String.[]
after_dash (String.◌∷◌ c s) = let rest = after_dash s in if String.◌∷◌ c "" == "-" then s else rest

module _ (int_of : String → ℕ) where
  abbrev count_of : Option Json → Outcome ℕ
  count_of none = value 0
  count_of (some Json.null) = value 0
  count_of (some (Json.num text)) = value (int_of text)
  count_of (some j) = panics

  -- `GetCollectionSize`
  unfoldable pub get_collection_size : RedfishPayload → Outcome ℕ
  unfolding member
  get_collection_size r = count_of (member r.object "Members@odata.count")

module _ (numbers : Numbers) (answers : Answers) where
  open numbers use {atoi, int_of}
  open answers use {get_uri}

  abbrev add_sled : Fields → List (ℤ × String) → String → Outcome (List (ℤ × String))
  add_sled chassis children name =
      if has_prefix (codes name) (codes "Sled-")
      then (as_text (member chassis "SKU") >>= λ sku.
          value (put_child children (atoi (before_dash (after_dash name))) sku))
      else value children

  abbrev add_child : Fields → List (ℤ × String) → Outcome (List (ℤ × String))
  add_child chassis children = as_text (member chassis "ChassisType") >>= λ type.
      if not (type == "Enclosure") && has (member chassis "SKU")
      then (as_text (member chassis "Name") >>= add_sled chassis children)
      else value children

  abbrev add_chassis : Outcome RedfishPayload → List (ℤ × String) → Outcome (List (ℤ × String))
  add_chassis (value chassis) children = add_child chassis.object children
  add_chassis failed children = value children
  add_chassis panics children = panics
  add_chassis exits children = exits

  unfoldable pub add_chassis_from :
      ℕ → ℕ → RedfishPayload → List (ℤ × String) → Outcome (List (ℤ × String))
  unfolding member get_property_by_index has_prefix before_dash after_dash
  add_chassis_from zero i collection children = value children
  add_chassis_from (suc rounds) i collection children =
      add_chassis (get_property_by_index get_uri collection i) children
      >>= add_chassis_from rounds (suc i) collection

  abbrev from_collection : Outcome RedfishPayload → Outcome (List (ℤ × String))
  from_collection (value collection) =
      get_collection_size int_of collection >>= λ n. add_chassis_from n zero collection []
  from_collection failed = value []
  from_collection panics = panics
  from_collection exits = exits

  -- `populateChildChassis`
  unfoldable pub populate_child_chassis : RedfishPayload → Outcome (List (ℤ × String))
  unfolding get_property_by_name get_collection_size add_chassis_from
  populate_child_chassis service_root =
      from_collection (get_property_by_name get_uri service_root "Chassis")

  -- What `RedfishMonitorStart` leaves: the device, the states that it has sent to the authorization
  -- service, each with the host, and the listeners that run.
  pub record Started : Type 0 where
    pub device : RedfishDevice
    pub updates : List (String × String)
    pub metrics : Bool
    pub alerts : Bool

  -- `getAlerts`; INCLUDE_ALERTS is an argument.
  abbrev get_alerts : Bool → Started → Started
  get_alerts false started = started
  get_alerts true started = record started {
    device = record started.device { state = "Running" };
    alerts = true;
  }

  abbrev get_telemetry : Started → Started
  get_telemetry started = record started {
    device = record started.device { state = "Running" };
    metrics = true;
  }

  abbrev with_service : Bool → String → RedfishDevice → Outcome RedfishPayload → Outcome Started
  with_service include_alerts hostname device (value telemetry) = value (
      get_alerts include_alerts (
        get_telemetry (record {
          device = device;
          updates = ("Running", hostname) ∷ [];
          metrics = false;
          alerts = false;
        })))
  with_service include_alerts hostname device failed = value (
      get_alerts include_alerts (record {
        device = record device { state = "Running Only Alerts" };
        updates = ("Monitoring", hostname) ∷ [];
        metrics = false;
        alerts = false;
      }))
  with_service include_alerts hostname device panics = panics
  with_service include_alerts hostname device exits = exits

  abbrev children_if : Bool → RedfishDevice → RedfishPayload → Outcome RedfishDevice
  children_if false device service_root = value device
  children_if true device service_root = populate_child_chassis service_root >>= λ children.
      value (record device { child_devices = children })

  abbrev stopped : RedfishDevice → List (String × String) → Started
  stopped device updates = record {
    device = device;
    updates = updates;
    metrics = false;
    alerts = false;
  }

  abbrev with_root : Bool → String → RedfishDevice → Outcome RedfishPayload → Outcome Started
  with_root include_alerts hostname device (value root) =
      children_if device.has_children device root >>= λ device'.
      with_service include_alerts hostname device'
        (get_property_by_name get_uri root "TelemetryService")
  with_root include_alerts hostname device failed = value (stopped device [])
  with_root include_alerts hostname device panics = panics
  with_root include_alerts hostname device exits = exits

  -- A host name that is missing is the id of the system.
  abbrev detail_of : String → SysInfo → SystemDetail
  detail_of system_id info = record {
    system_id = system_id;
    host_name = (if info.error || info.host_name == "" then system_id else info.host_name);
    model = info.model;
    sku = info.sku;
    fw_ver = info.fw_ver;
    fqdn = info.fqdn;
    img_id = info.img_id;
  }

  abbrev with_id : Bool → String → RedfishDevice → Option String → Outcome Started
  with_id include_alerts hostname device none =
      value (stopped device (("Connection Failed", hostname) ∷ []))
  with_id include_alerts hostname device (some system_id) =
      if system_id == ""
      then value (stopped device (("Connection Failed", hostname) ∷ []))
      else with_root include_alerts hostname
          (record device { detail = detail_of system_id answers.get_sys_info })
          (get_uri "/redfish/v1")

  abbrev with_client : Bool → RedfishDevice → Client → Outcome Started
  with_client include_alerts device (client hostname username) =
      with_id include_alerts hostname device answers.get_system_id
  with_client include_alerts device c = panics

  -- `RedfishMonitorStart`
  unfoldable pub redfish_monitor_start : Bool → RedfishDevice → Outcome Started
  unfolding populate_child_chassis get_property_by_name
  redfish_monitor_start include_alerts device = with_client include_alerts device device.redfish
