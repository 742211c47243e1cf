-- ===== src/Disc.antt =====
-- internal/disc/disc.go: the services that are discovered, and the messages about them.
-- A message that cannot be decoded gives a value with the fields that could be set.
pub mod Programs
pub mod Chain
use i_drac_telemetry_referen.Common.{
  ℕ, Bool, true, false, Option, none, some, List, [], ◌∷◌, String, if◌then◌else◌,
}
use i_drac_telemetry_referen.Common.Int.{ℤ, pos}
use i_drac_telemetry_referen.Json.{Json, Fields, JsonText, num, str, obj, end, field, same_key}
use i_drac_telemetry_referen.Json.Structs.{set_text}
use i_drac_telemetry_referen.Service.{Bus, send_message}
use i_drac_telemetry_referen.Auth.{IntText, set_int}

pub record Service : Type 0 where
  pub service_type : ℤ
  pub ip : String

pub record Command : Type 0 where
  pub command : String

abbrev pub unknown : ℤ
unknown = pos 0

abbrev pub idrac : ℤ
idrac = pos 3

abbrev pub empty_service : Service
empty_service = record { service_type = pos 0; ip = "" }

abbrev or_same {ℓ} : {A : Type ℓ} → A → Option A → A
or_same a none = a
or_same a (some b) = b

-- A field that cannot be set is passed over, and the others are set.
unfoldable pub fill_fields {ℓ} : {A : Type ℓ} → (A → String → Json → Option A) → A → Fields → A
fill_fields set a end = a
fill_fields set a (field key j rest) = fill_fields set (or_same a (set a key j)) rest

abbrev fill {ℓ} : {A : Type ℓ} → (A → String → Json → Option A) → A → Option Json → A
fill set a (some (obj fields)) = fill_fields set a fields
fill set a j = a

unfoldable pub set_command : Command → String → Json → Option Command
unfolding same_key
set_command c key j =
    if same_key key "command" then set_text c (λ v. record c { command = v }) j else some c

abbrev pub marshal_command : Command → Json
marshal_command c = obj (field "command" (str c.command) end)

module _ (json : JsonText) (fails : ℕ → Option String) (ints : IntText) where
  open json use {Text, print, parse}
  open ints use {print_int}

  abbrev pub marshal_service : Service → Json
  marshal_service s =
      obj (field "serviceType" (num (print_int s.service_type)) (field "ip" (str s.ip) end))

  unfoldable pub set_service : Service → String → Json → Option Service
  unfolding same_key
  set_service s key j =
      if same_key key "serviceType"
      then set_int ints s (λ i. record s { service_type = i }) j
      else if same_key key "ip"
      then set_text s (λ v. record s { ip = v }) j
      else some s

  unfoldable pub read_service : Text → Service
  unfolding set_service fill_fields
  read_service message = fill set_service empty_service (parse message)

  unfoldable pub read_command : Text → Command
  unfolding set_command fill_fields
  read_command message = fill set_command (record { command = "" }) (parse message)

  -- `SendService`
  unfoldable pub send_service : Bus Text → Service → Bus Text × Option String
  unfolding send_message
  send_service bus service =
      send_message json fails bus (print (marshal_service service)) "/discovery"

  -- `ReceiveCommand`, over the messages of the command queue
  unfoldable pub receive_command : List Text → List Command
  unfolding read_command
  receive_command [] = []
  receive_command (m ∷ ms) = read_command m ∷ receive_command ms

  -- `SendCommand`
  unfoldable pub send_command : Bus Text → Command → Bus Text
  unfolding send_message
  send_command bus command =
      (send_message json fails bus (print (marshal_command command)) "/discovery/command").0

  -- `SendCommandString`
  unfoldable pub send_command_string : Bus Text → String → Bus Text
  unfolding send_command
  send_command_string bus command = send_command bus (record { command = command })

  -- `ResendAll`
  unfoldable pub resend_all : Bus Text → Bus Text
  unfolding send_command_string
  resend_all bus = send_command_string bus "resend"

  -- `GetService` of the client, over the messages of the event queue
  unfoldable pub get_service : List Text → List Service
  unfolding read_service
  get_service [] = []
  get_service (m ∷ ms) = read_service m ∷ get_service ms
