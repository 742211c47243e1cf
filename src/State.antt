-- ===== src/State.antt =====
-- internal/state: the commands about the status of services.
use i_drac_telemetry_referen.Common.{ℕ, Option, none, some, List, [], ◌∷◌, String}
use i_drac_telemetry_referen.Json.{Json, JsonText}
use i_drac_telemetry_referen.Json.Structs.{read_struct, read_fields}
use i_drac_telemetry_referen.Service.{Bus, send_message}
use i_drac_telemetry_referen.Auth.{Service, ServiceItem}
use i_drac_telemetry_referen.Disc.{Command, marshal_command, set_command}

module _ (json : JsonText) (fails : ℕ → Option String) where
  open json use {Text, print, parse}

  abbrev decoded : Option Json → Option Command
  decoded none = none
  decoded (some j) = read_struct set_command (record { command = "" }) j

  abbrev then_more : Option Command → List Command → List Command
  then_more none cs = []
  then_more (some c) cs = c ∷ cs

  -- `ReceiveCommand`, over the messages of the queue: it ends at one that cannot be decoded.
  unfoldable pub receive_command : List Text → List Command
  unfolding read_fields set_command
  receive_command [] = []
  receive_command (m ∷ ms) = then_more (decoded (parse m)) (receive_command ms)

  -- `SendCommand`
  unfoldable pub send_command : Bus Text → Command → Bus Text × Option String
  unfolding send_message
  send_command bus command =
      send_message json fails bus (print (marshal_command command)) "/status/command"

  -- `SendCommandString`
  unfoldable pub send_command_string : Bus Text → String → Bus Text
  unfolding send_command
  send_command_string bus command = (send_command bus (record { command = command })).0

  -- `UpdateServiceStatus`, which does not send the service
  unfoldable pub update_service_status : Bus Text → Service → Bus Text × Option String
  unfolding send_command
  update_service_status bus service = send_command bus (record { command = "updateservicestatus" })

  -- `UpdateServiceItemStatus`, which does not send the item
  unfoldable pub update_service_item_status : Bus Text → ServiceItem → Bus Text × Option String
  unfolding send_command
  update_service_item_status bus si =
      send_command bus (record { command = "updateserviceitemstatus" })
