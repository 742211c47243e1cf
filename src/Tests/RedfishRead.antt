-- ===== src/Tests/RedfishRead.antt =====
-- pkg/redfishread and cmd/redfishread: instances of the theorems.
use i_drac_telemetry_referen.Common.{
  ◌≡◌, refl, true, false, Option, none, some, List, [], ◌∷◌, String, if◌then◌else◌,
}
use i_drac_telemetry_referen.Common.Int.{ℤ, pos}
use i_drac_telemetry_referen.Common.Dict
use i_drac_telemetry_referen.Common.Ascii.{to_lower, lower}
use i_drac_telemetry_referen.Common.Text.{◌==◌}
use i_drac_telemetry_referen.Json.{Json, str, obj, field, end}
use i_drac_telemetry_referen.Redfish.{RedfishPayload, Outcome, value, failed, panics, empty_payload}
use i_drac_telemetry_referen.Wire.{Envelope, empty_envelope}
use i_drac_telemetry_referen.Auth.{Service, empty_service, marshal_service, read_service}
use i_drac_telemetry_referen.Tests.Fixtures.{unary_text, trees}
use i_drac_telemetry_referen.RedfishRead.{
  client, RedfishDevice, empty_detail, Numbers, Answers, Started, redfish_monitor_start,
}
use i_drac_telemetry_referen.RedfishRead.Main.{World, handle_auth_service}
use i_drac_telemetry_referen.RedfishRead.Systems.{get_system_id, irc_system_id}
use i_drac_telemetry_referen.RedfishRead.Monitor.{Agrees, redfish_monitor_start-Agrees}
use i_drac_telemetry_referen.RedfishRead.Devices.Starts.{
  Arrival, service, command, started, removed, marks, AreApart, marks-AreApart,
}
use i_drac_telemetry_referen.RedfishRead.Devices.NoClient.{start_new, start_new-panics}

abbrev numbers : Numbers
numbers = record { atoi = λ s. pos 0; int_of = λ s. 0 }

-- The device has a service root, and no telemetry service.
abbrev served : String → Outcome RedfishPayload
served uri =
    if uri == "/redfish/v1"
    then value (record empty_payload { object = field "@odata.id" (str uri) end })
    else failed

abbrev answers : Answers
answers = record {
  get_system_id = some "S1";
  get_sys_info = record {
    host_name = "host1";
    sku = "S1";
    model = "R750";
    fw_ver = "6.10";
    fqdn = "host1.lan";
    img_id = "";
    error = false;
  };
  get_uri = served;
}

abbrev device : RedfishDevice
device = record {
  has_children = false;
  redfish = client "10.0.0.7" "root";
  detail = empty_detail;
  child_devices = [];
  state = "Starting";
  last_event = "";
}

abbrev monitored : Started numbers answers
monitored = record {
  device = record device {
    state = "Running";
    detail = record {
      system_id = "S1";
      host_name = "host1";
      model = "R750";
      sku = "S1";
      fw_ver = "6.10";
      fqdn = "host1.lan";
      img_id = "";
    };
  };
  updates = ("Monitoring", "10.0.0.7") ∷ [];
  metrics = false;
  alerts = true;
}

monitor_run : redfish_monitor_start numbers answers true device ≡ value monitored
unfolding redfish_monitor_start
monitor_run = refl

redfish_monitor_start-Agrees_example : Agrees numbers answers true "Starting" monitored
redfish_monitor_start-Agrees_example =
    redfish_monitor_start-Agrees numbers answers true device monitored monitor_run

abbrev init : String → String → String → ℤ → Option String
init ip username password type = if ip == "10.0.0.9" then some "no route" else none

abbrev init_bearer : String → String → Option String
init_bearer ip token = some "no session"

abbrev rack : Service
rack = record empty_service { service_type = pos 4; ip = "10.0.0.7"; auth_type = pos 1 }

abbrev world : World Json
world = record { devices = []; groups = []; bus = record { posted = []; sends = 0 } }

abbrev deleted : Envelope
deleted = record empty_envelope {
  type = "deleteproducers";
  payload = some (marshal_service unary_text rack);
}

-- The service comes twice before its device is removed, and once after.
abbrev arrivals : List Arrival
arrivals = service rack ∷ service rack ∷ command deleted ∷ service rack ∷ []

started_again :
    marks trees (λ n. none) unary_text init init_bearer world arrivals
    ≡ started "10.0.0.7" ∷ removed "10.0.0.7" ∷ started "10.0.0.7" ∷ []
unfolding marks handle_auth_service Dict.get Dict.put Dict.remove read_service marshal_service
    to_lower lower
started_again = refl

marks-AreApart_example :
    AreApart (marks trees (λ n. none) unary_text init init_bearer world arrivals)
marks-AreApart_example = marks-AreApart trees (λ n. none) unary_text init init_bearer world arrivals

abbrev untyped : Service
untyped = record rack { auth_type = pos 0 }

start_new-panics_example :
    start_new trees
      (λ n. none)
      unary_text
      init
      init_bearer
      numbers
      answers
      true
      (handle_auth_service trees (λ n. none) unary_text init init_bearer [] untyped).1
    ≡ panics
unfolding Dict.get
start_new-panics_example =
    start_new-panics trees (λ n. none) unary_text init init_bearer numbers answers true [] untyped
      refl refl refl refl

abbrev with_token : Service
with_token = record rack { auth_type = pos 3; auth = some (("token", "t") ∷ []) }

-- A device with a service tag
abbrev tagged : String → Outcome RedfishPayload
tagged uri = value (record empty_payload {
  object = field "Oem" (obj (field "Dell" (obj (field "ServiceTag" (str "ABC1234") end)) end)) end;
})

tag_of_device : get_system_id (λ s. 0) tagged ≡ value "ABC1234"
unfolding get_system_id
tag_of_device = refl

-- A rack controller whose manager has no tag, and whose chassis cannot be fetched.
abbrev manager_only : String → Outcome RedfishPayload
manager_only uri = if uri == "/redfish/v1/Managers/IRC" then value empty_payload else failed

no_chassis : irc_system_id (λ s. 0) manager_only ≡ panics
unfolding irc_system_id
no_chassis = refl
