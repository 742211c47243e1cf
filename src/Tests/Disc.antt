-- ===== src/Tests/Disc.antt =====
-- internal/disc, cmd/simpledisc and cmd/simpleauth: runs, and an instance of the theorem.
use i_drac_telemetry_referen.Common.{
  ◌≡◌, refl, Option, none, some, List, [], ◌∷◌, String, if◌then◌else◌,
}
use i_drac_telemetry_referen.Common.Ascii.{to_lower, lower}
use i_drac_telemetry_referen.Common.Dict
use i_drac_telemetry_referen.Common.Dict.{Dict}
use i_drac_telemetry_referen.Common.Int.{pos}
use i_drac_telemetry_referen.Common.Text.{◌==◌}
use i_drac_telemetry_referen.Json.{Json, same_key}
use i_drac_telemetry_referen.Redfish.{value, panics}
use i_drac_telemetry_referen.Service.{Bus}
use i_drac_telemetry_referen.Auth.Client
use i_drac_telemetry_referen.Tests.Fixtures.{unary_text, trees}
use i_drac_telemetry_referen.Disc.{Service, send_service}
use i_drac_telemetry_referen.Disc.Programs.{
  DiscProgram, send_later, AuthProgram, services_of, type_of, auth_service_of,
}
use i_drac_telemetry_referen.Disc.Chain.{with_secrets}

abbrev found : List Service
found =
    record { service_type = pos 3; ip = "10.0.0.7" }
    ∷ record { service_type = pos 0; ip = "10.0.0.8" }
    ∷ []

names_any_case : services_of ("idrac" ∷ "other" ∷ []) ("10.0.0.7" ∷ "10.0.0.8" ∷ []) ≡ value found
unfolding services_of type_of same_key to_lower lower
names_any_case = refl

-- There is a type without an address.
no_address : services_of ("MSM" ∷ "EC" ∷ []) ("10.0.0.7" ∷ []) ≡ panics
unfolding services_of
no_address = refl

-- The second service has no section.
abbrev section : String → Option (Dict String)
section ip =
    if ip == "10.0.0.7" then some (("username", "root") ∷ ("password", "calvin") ∷ []) else none

abbrev token : Service → Dict String → Option String
token s keys = none

abbrev idle : Bus Json
idle = record { posted = []; sends = 0 }

abbrev program : AuthProgram trees (λ n. none) unary_text
program = record { bus = idle; auth_services = []; pending = [] }

with_root :
    with_secrets trees (λ n. none) unary_text (λ n. refl) section token found
    ≡ record {
      service_type = pos 3;
      ip = "10.0.0.7";
      auth_type = pos 1;
      auth = some (("password", "calvin") ∷ ("username", "root") ∷ []);
      state = "";
    }
      ∷ []
unfolding auth_service_of Dict.get
with_root = refl

abbrev waiting : DiscProgram trees (λ n. none) unary_text
waiting = send_later trees (λ n. none) unary_text (record { bus = idle; pending = [] }) found

abbrev second_sent : DiscProgram trees (λ n. none) unary_text
second_sent = record {
  bus =
      (send_service trees (λ n. none) unary_text idle
        (record { service_type = pos 0; ip = "10.0.0.8" })).0;
  pending = record { service_type = pos 3; ip = "10.0.0.7" } ∷ [];
}

abbrev both_sent : DiscProgram trees (λ n. none) unary_text
both_sent = record {
  bus =
      (send_service trees (λ n. none) unary_text second_sent.bus
        (record { service_type = pos 3; ip = "10.0.0.7" })).0;
  pending = [];
}
