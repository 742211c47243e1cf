-- ===== src/RedfishRead/Main.antt =====
-- cmd/redfishread/redfishread.go: the commands that the program answers, and the services that come
-- in. Groups and devices are gone through in the order of their lists.
use i_drac_telemetry_referen.Common.{ℕ, Option, none, some, List, [], ◌∷◌, String, if◌then◌else◌}
use i_drac_telemetry_referen.Common.Dict
use i_drac_telemetry_referen.Common.Dict.{Dict}
use i_drac_telemetry_referen.Common.Int.{ℤ}
use i_drac_telemetry_referen.Common.Text.{◌==◌}
use i_drac_telemetry_referen.Json.{Json, JsonText, str, arr, obj, end, field}
use i_drac_telemetry_referen.Json.Structs.{items}
use i_drac_telemetry_referen.Redfish.{Outcome, value, panics, exits, ◌>>=◌}
use i_drac_telemetry_referen.Wire.{Envelope, document}
use i_drac_telemetry_referen.Service.{Bus, reply}
use i_drac_telemetry_referen.Service.Typed.{decode_payload}
use i_drac_telemetry_referen.Databus.Group.{DataGroup, marshal_group}
use i_drac_telemetry_referen.Databus.Groups.{DataGroups}
use i_drac_telemetry_referen.Auth.{IntText, Service, empty_service, read_service}
use i_drac_telemetry_referen.RedfishRead.{Client, client, RedfishDevice, validate_and_add_device}

pub record DataProducer : Type 0 where
  pub hostname : String
  pub username : String
  pub state : String
  pub last_event : String

unfoldable pub marshal_producer : DataProducer → Json
marshal_producer p = obj (
    field "Hostname" (str p.hostname) (
      field "Username" (str p.username)
        (field "State" (str p.state) (field "LastEvent" (str p.last_event) end))))

abbrev pub producer_of : RedfishDevice → Client → Outcome DataProducer
producer_of device (client hostname username) = value (record {
  hostname = hostname;
  username = username;
  state = device.state;
  last_event = device.last_event;
})
producer_of device c = panics

-- The loop of GETPRODUCERS
unfoldable pub producers_of : Dict RedfishDevice → Outcome (List DataProducer)
producers_of [] = value []
producers_of ((ip, device) ∷ devices) =
    producer_of device device.redfish >>= λ p. producers_of devices >>= λ ps. value (p ∷ ps)

pub record World (T : Type 0) : Type 0 where
  pub devices : Dict RedfishDevice
  pub groups : DataGroups
  pub bus : Bus T

module _ (json : JsonText) (fails : ℕ → Option String) (ints : IntText) where
  open json use {Text}

  -- A reply to each group of a system
  unfoldable pub reply_system : Bus Text → Envelope → Dict DataGroup → Bus Text
  unfolding reply marshal_group
  reply_system bus env [] = bus
  reply_system bus env ((id, group) ∷ rest) =
      reply_system (reply json fails bus env (document (marshal_group group))).0 env rest

  -- The loops of GET
  unfoldable pub reply_groups : Bus Text → Envelope → DataGroups → Bus Text
  unfolding reply_system
  reply_groups bus env [] = bus
  reply_groups bus env ((system, groups) ∷ rest) =
      reply_groups (reply_system bus env groups) env rest

  abbrev pub reply_producers : World Text → Envelope → List DataProducer → World Text
  reply_producers w env producers = record w {
    bus = (reply json fails w.bus env (document (arr (items marshal_producer producers)))).0;
  }

  -- `devices[service.Ip].CtxCancel()` and the deletion
  abbrev pub cancel : World Text → String → Option RedfishDevice → Outcome (World Text)
  cancel w ip none = panics
  cancel w ip (some device) = value (record w { devices = Dict.remove w.devices ip })

  -- A payload that cannot be decoded is passed over.
  abbrev pub delete_producer : World Text → Option Service → Outcome (World Text)
  delete_producer w none = value w
  delete_producer w (some service) = cancel w service.ip (Dict.get w.devices service.ip)

  -- One round of the loop of `main`
  unfoldable pub handle_command : World Text → Envelope → Outcome (World Text)
  unfolding reply_groups producers_of reply read_service
  handle_command w env =
      if env.type == "get"
      then value (record w { bus = reply_groups w.bus env w.groups })
      else if env.type == "getproducers"
      then (producers_of w.devices >>= λ producers. value (reply_producers w env producers))
      else if env.type == "deleteproducers"
      then delete_producer w (decode_payload empty_service (read_service ints) env.payload)
      else if env.type == "terminate"
      then exits
      else value w

  module _ (init : String → String → String → ℤ → Option String)
      (init_bearer : String → String → Option String) where
    abbrev pub to_start : Option RedfishDevice → Option String → Option RedfishDevice
    to_start device none = device
    to_start device (some err) = none

    -- One round of `handleAuthServiceChannel`: the devices, and the one whose monitor is started
    unfoldable pub handle_auth_service :
        Dict RedfishDevice → Service → Dict RedfishDevice × Option RedfishDevice
    unfolding validate_and_add_device
    handle_auth_service devices service =
        let (devices', device, err) = validate_and_add_device init init_bearer service devices in
        (devices', to_start device err)
