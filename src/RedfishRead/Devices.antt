-- ===== src/RedfishRead/Devices.antt =====
-- The devices of the program: what a service that comes in changes.
pub mod NoClient
pub mod Starts
use i_drac_telemetry_referen.Common.{
  ℕ, Bool, true, false, ◌≡◌, refl, sym, ap, ◌∙◌, ◌||◌, ◌⊎◌, inl, inr, Option, none, some, List, [],
  ◌∷◌, String, arith, Bool-cases, Option-cases, if◌then◌else◌,
}
use i_drac_telemetry_referen.Common.Dict
use i_drac_telemetry_referen.Common.Dict.{Dict, get-put, get-put_same}
use i_drac_telemetry_referen.Common.Int.{ℤ}
use i_drac_telemetry_referen.Common.Text.{◌==◌, eq_iff, eq_refl}
use i_drac_telemetry_referen.Json.{JsonText}
use i_drac_telemetry_referen.Wire.{Envelope}
use i_drac_telemetry_referen.Redfish.{Outcome, value, panics, ◌>>=◌}
use i_drac_telemetry_referen.Databus.{contains}
use i_drac_telemetry_referen.Databus.Receivers.{Distinct}
use i_drac_telemetry_referen.Auth.{
  IntText, Service, auth_type_username_password, auth_type_bearer_token,
}
use i_drac_telemetry_referen.RedfishRead.{
  Client, no_client, nil_client, RedfishDevice, Numbers, Answers, new_client, new_device, add_new,
  add_device, validate_and_add_device, redfish_monitor_start, eq_int,
}
use i_drac_telemetry_referen.RedfishRead.Main.{
  World, producer_of, producers_of, handle_command, handle_auth_service, to_start,
}

module _ (json : JsonText) (fails : ℕ → Option String) (ints : IntText)
    (init : String → String → String → ℤ → Option String)
    (init_bearer : String → String → Option String) where
  open json use {Text}

  abbrev pub handled : Dict RedfishDevice → Service → Dict RedfishDevice × Option RedfishDevice
  handled = handle_auth_service json fails ints init init_bearer

  abbrev pub opened : Service → RedfishDevice
  opened s = new_device init init_bearer s (new_client init init_bearer s)

  abbrev pub startable : Service → Option RedfishDevice
  startable s =
      to_start json fails ints init init_bearer (some (opened s)) (new_client init init_bearer s).1

  handle-empty :
      (devices : Dict RedfishDevice) (s : Service)
      → s.ip == "" ≡ true
      → handled devices s ≡ (devices, none)
  unfolding handle_auth_service validate_and_add_device
  handle-empty devices s e = rw e

  handle-known :
      (devices : Dict RedfishDevice) (s : Service) (d : RedfishDevice)
      → s.ip == "" ≡ false
      → Dict.get devices s.ip ≡ some d
      → handled devices s ≡ (devices, none)
  unfolding handle_auth_service validate_and_add_device
  handle-known devices s d named known = rw (named, known)

  -- A new address is put, with or without a client, and its monitor is started without an error.
  handle-new :
      (devices : Dict RedfishDevice) (s : Service)
      → s.ip == "" ≡ false
      → Dict.get devices s.ip ≡ none
      → handled devices s ≡ (Dict.put devices s.ip (opened s), startable s)
  unfolding handle_auth_service validate_and_add_device
  handle-new devices s named new = rw (named, new)

  -- Either a service changes nothing, or its address is new and is put.
  pub handled-cases :
      (devices : Dict RedfishDevice) (s : Service)
      → (handled devices s ≡ (devices, none))
        ⊎ ((Dict.get devices s.ip ≡ none)
            × (handled devices s ≡ (Dict.put devices s.ip (opened s), startable s)))
  handled-cases devices s = elim (Bool-cases (s.ip == "")) [
    | inl empty ↦ inl (handle-empty devices s empty)
    | inr named ↦ elim (Option-cases (Dict.get devices s.ip)) [
      | inl new ↦ inr (new, handle-new devices s named new)
      | inr (old, known) ↦ inl (handle-known devices s old named known)
    ]
  ]
