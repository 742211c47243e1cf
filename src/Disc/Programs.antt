-- ===== src/Disc/Programs.antt =====
-- cmd/simpledisc and cmd/simpleauth: the services of a configuration file, and their secrets.
-- What the ini files hold is a parameter: a section is its keys with their texts. For an enclosure
-- controller, what its shell gives as the token is a parameter, with none where the service is
-- passed over. What goroutines have still to send waits in `pending`, and goes in any order.
use i_drac_telemetry_referen.Common.{
  ℕ, ◌≡◌, Option, none, some, List, [], ◌∷◌, ◌++◌, String, if◌then◌else◌,
}
use i_drac_telemetry_referen.Common.Dict
use i_drac_telemetry_referen.Common.Dict.{Dict}
use i_drac_telemetry_referen.Common.Int.{ℤ}
use i_drac_telemetry_referen.Common.Text.{◌==◌}
use i_drac_telemetry_referen.Json.{JsonText, same_key}
use i_drac_telemetry_referen.Redfish.{Outcome, value, panics, exits, ◌>>=◌}
use i_drac_telemetry_referen.Wire.{Envelope}
use i_drac_telemetry_referen.Service.{Bus}
use i_drac_telemetry_referen.Auth
use i_drac_telemetry_referen.Auth.{
  IntText, auth_type_username_password, auth_type_bearer_token, msm, ec,
}
use i_drac_telemetry_referen.Auth.Client.{broadcast_service}
use i_drac_telemetry_referen.RedfishRead.{eq_int}
use i_drac_telemetry_referen.Disc.{Service, Command, unknown, idrac, send_service}

-- `strings.EqualFold` on the names of the types, over ASCII
unfoldable pub type_of : String → ℤ
unfolding same_key
type_of element =
    if same_key element "MSM"
    then msm
    else if same_key element "EC"
    then ec
    else if same_key element "iDRAC"
    then idrac
    else unknown

-- The loop over the types, with `ips[index]`
unfoldable pub services_of : List String → List String → Outcome (List Service)
unfolding type_of
services_of [] ips = value []
services_of (t ∷ types) [] = panics
services_of (t ∷ types) (ip ∷ ips) =
    services_of types ips >>= λ rest. value (record { service_type = type_of t; ip = ip } ∷ rest)

abbrev or_empty : Option String → String
or_empty none = ""
or_empty (some v) = v

module _ (json : JsonText) (fails : ℕ → Option String) (ints : IntText) where
  open json use {Text}

  pub record DiscProgram : Type 0 where
    pub bus : Bus Text
    pub pending : List Service

  -- Goroutines that send services; errors are only logged.
  abbrev pub send_later : DiscProgram → List Service → DiscProgram
  send_later p services = record p { pending = p.pending ++ services }

  -- One round of the loop of simpledisc
  unfoldable pub disc_command : DiscProgram → List Service → Command → Outcome DiscProgram
  disc_command p services c =
      if c.command == "resend"
      then value (send_later p services)
      else if c.command == "terminate"
      then exits
      else value p

  -- The goroutines that wait send their services, in any order.
  pub data Sends : DiscProgram → DiscProgram → Type 0 where
    done : {p : DiscProgram} → Sends p p
    sent :
        (before after : List Service) (s : Service) {p q : DiscProgram}
        → p.pending ≡ before ++ s ∷ after
        → Sends
            (record { bus = (send_service json fails ints p.bus s).0; pending = before ++ after })
            q
        → Sends p q

  pub record AuthProgram : Type 0 where
    pub bus : Bus Text
    pub auth_services : Dict Auth.Service
    pub pending : List Auth.Service

  module _ (section : String → Option (Dict String))
      (token : Service → Dict String → Option String) where
    abbrev without_secret : Service → Auth.Service
    without_secret s = record Auth.empty_service { service_type = s.service_type; ip = s.ip }

    abbrev pub with_token : Service → Option String → Option Auth.Service
    with_token s none = none
    with_token s (some t) = some (record (without_secret s) {
      auth_type = auth_type_bearer_token;
      auth = some (("token", t) ∷ []);
    })

    -- A service whose section has no user name has no type of authorization.
    abbrev pub with_username : Service → Dict String → Option String → Auth.Service
    with_username s keys none = without_secret s
    with_username s keys (some username) = record (without_secret s) {
      auth_type = auth_type_username_password;
      auth = some (("password", or_empty (Dict.get keys "password")) ∷ ("username", username) ∷ []);
    }

    abbrev pub with_section : Service → Option (Dict String) → Option Auth.Service
    with_section s none = none
    with_section s (some keys) =
        if eq_int s.service_type ec
        then with_token s (token s keys)
        else some (with_username s keys (Dict.get keys "username"))

    -- The service with its secrets, or none where it is passed over
    unfoldable pub auth_service_of : Service → Option Auth.Service
    auth_service_of s = with_section s (section s.ip)

    abbrev pub broadcast_if : AuthProgram → Option Auth.Service → AuthProgram
    broadcast_if p none = p
    broadcast_if p (some s) = record p {
      bus = (broadcast_service json fails ints p.bus s).0;
      auth_services = Dict.put p.auth_services s.ip s;
    }

    -- One round of `handleDiscServiceChannel`
    unfoldable pub handle_disc_service : AuthProgram → Service → AuthProgram
    unfolding auth_service_of broadcast_service
    handle_disc_service p s = broadcast_if p (auth_service_of s)

    unfoldable pub handle_disc_services : AuthProgram → List Service → AuthProgram
    unfolding handle_disc_service
    handle_disc_services p [] = p
    handle_disc_services p (s ∷ services) = handle_disc_services (handle_disc_service p s) services

  abbrev pub services_in : Dict Auth.Service → List Auth.Service
  services_in [] = []
  services_in ((ip, s) ∷ services) = s ∷ services_in services

  -- One round of the loop of simpleauth
  unfoldable pub auth_command : AuthProgram → Envelope → Outcome AuthProgram
  auth_command p env =
      if env.type == "resend"
      then value (record p { pending = p.pending ++ services_in p.auth_services })
      else if env.type == "terminate"
      then exits
      else value p

  -- A goroutine that waits broadcasts its service.
  pub data Broadcasts : AuthProgram → AuthProgram → Type 0 where
    broadcast :
        (before after : List Auth.Service) (s : Auth.Service) {p : AuthProgram}
        → p.pending ≡ before ++ s ∷ after
        → Broadcasts p (record p {
          bus = (broadcast_service json fails ints p.bus s).0;
          pending = before ++ after;
        })
