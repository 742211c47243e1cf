-- ===== src/Config/Client.antt =====
-- internal/config/config.go: the client of the config service, its commands and its reading of the
-- responses. `none` is an error of `json.Unmarshal`.
use i_drac_telemetry_referen.Common.{Option, none, some, String, if◌then◌else◌}
use i_drac_telemetry_referen.Json.{Json, Fields, null, str, obj, end, field, same_key}
use i_drac_telemetry_referen.Config.{Command, empty_command, Response}

abbrev pub empty_response : Response
empty_response = record { command = ""; property = ""; value = null; error = none }

-- The command of `ConfigClient.Get`
abbrev pub get_command : String → String → Command
get_command response_queue name = record empty_command {
  command = "get";
  response_queue = response_queue;
  property = name;
}

-- The command of `ConfigClient.Set`
abbrev pub set_command : String → String → Json → Command
set_command response_queue name value = record empty_command {
  command = "set";
  response_queue = response_queue;
  property = name;
  value = value;
}

-- The command of `ConfigClient.Reset`
abbrev pub reset_command : String → String → Command
reset_command response_queue name = record empty_command {
  command = "reset";
  response_queue = response_queue;
  property = name;
}

abbrev set_text : Response → (String → Response) → Json → Option Response
set_text r set null = some r
set_text r set (str v) = some (set v)
set_text r set _ = none

-- Of an interface with methods, only null can be read.
abbrev set_error : Response → Json → Option Response
set_error r null = some (record r { error = none })
set_error r _ = none

unfoldable pub set_response_key : Response → String → Json → Option Response
unfolding same_key
set_response_key r key j =
    if same_key key "command"
    then set_text r (λ v. record r { command = v }) j
    else if same_key key "property"
    then set_text r (λ v. record r { property = v }) j
    else if same_key key "value"
    then some (record r { value = j })
    else if same_key key "error"
    then set_error r j
    else some r

unfoldable pub read_response_fields : Response → Fields → Option Response
read_response_fields r end = some r
read_response_fields r (field key j rest) = elim (set_response_key r key j) [
  | none ↦ none
  | some r' ↦ read_response_fields r' rest
]

-- What `json.Unmarshal` makes of a response.
unfoldable pub read_response : Option Json → Option Response
unfolding read_response_fields
read_response (some (obj fields)) = read_response_fields empty_response fields
read_response (some null) = some empty_response
read_response _ = none
