-- ===== src/Auth/Reads.antt =====
-- internal/auth/auth.go: the replies that hold a login, and the states of valves.
use i_drac_telemetry_referen.Common.{ℕ, Option, some, List, [], String, if◌then◌else◌}
use i_drac_telemetry_referen.Json.{Json, JsonText, same_key}
use i_drac_telemetry_referen.Json.Structs.{set_text, read_struct, read_fields, read_items}
use i_drac_telemetry_referen.Service.{CallResult}
use i_drac_telemetry_referen.Auth.{IntText, Login, ValveState, empty_login, set_int}
use i_drac_telemetry_referen.Auth.Client.{decoded_or, read_list}

abbrev empty_valve_state : ValveState
empty_valve_state = record { ip = ""; v_state1 = ""; v_state2 = "" }

unfoldable pub set_valve_state : ValveState → String → Json → Option ValveState
unfolding same_key
set_valve_state v key j =
    if same_key key "ip"
    then set_text v (λ s. record v { ip = s }) j
    else if same_key key "state1"
    then set_text v (λ s. record v { v_state1 = s }) j
    else if same_key key "state2"
    then set_text v (λ s. record v { v_state2 = s }) j
    else some v

unfoldable pub read_valve_state : Json → Option ValveState
unfolding set_valve_state read_fields
read_valve_state j = read_struct set_valve_state empty_valve_state j

module _ (json : JsonText) (fails : ℕ → Option String) (ints : IntText) where
  unfoldable pub set_login : Login → String → Json → Option Login
  unfolding same_key
  set_login l key j =
      if same_key key "username"
      then set_text l (λ s. record l { username = s }) j
      else if same_key key "password"
      then set_text l (λ s. record l { password = s }) j
      else if same_key key "jwtVersion"
      then set_int ints l (λ i. record l { jwt_version = i }) j
      else some l

  unfoldable pub read_login : Json → Option Login
  unfolding set_login read_fields
  read_login j = read_struct set_login empty_login j

  -- `GetLogin`
  unfoldable pub get_login : CallResult → Login
  unfolding read_login
  get_login r = decoded_or json fails ints read_login empty_login empty_login r

  -- `GetValveStatus`
  unfoldable pub get_valve_status : CallResult → List ValveState
  unfolding read_valve_state read_items
  get_valve_status r =
      decoded_or json fails ints (read_list json fails ints read_valve_state) [] [] r
