-- ===== src/Config.antt =====
-- internal/config/config.go: the service that reads and sets the properties of a program.
-- `ConfigEntry` is what a program supplies for a property; its functions act on the program's state
-- `S`. A value is a document, and nil is null; a number is the text that is written for a float64.
-- The bus is that of Service.
pub mod Client
pub mod Answers
pub mod Exchange
use i_drac_telemetry_referen.Common.{
  ℕ, Bool, true, false, Option, none, some, List, [], ◌∷◌, ◌++◌, String, if◌then◌else◌,
}
use i_drac_telemetry_referen.Common.Dict
use i_drac_telemetry_referen.Common.Dict.{Dict}
use i_drac_telemetry_referen.Common.Text.{◌==◌, append}
use i_drac_telemetry_referen.Json.{
  Json, JsonText, Items, Fields, null, str, arr, obj, nil, cons, end, field, same_key,
}
use i_drac_telemetry_referen.Service.{Bus, send_message}

pub record Command : Type 0 where
  pub command : String
  pub response_queue : String
  pub property : String
  pub value : Json

abbrev pub empty_command : Command
empty_command = record { command = ""; response_queue = ""; property = ""; value = null }

-- An error with the document that encoding/json makes of it; an error of `fmt.Errorf` has no
-- exported field.
pub record Fault : Type 0 where
  pub text : String
  pub document : Json

abbrev pub errorf : String → Fault
errorf text = record { text = text; document = obj end }

pub record Response : Type 0 where
  pub command : String
  pub property : String
  pub value : Json
  pub error : Option Fault

-- `omitempty` on a string and on an interface
unfoldable pub text_field : String → String → Fields → Fields
text_field key v rest = if v == "" then rest else field key (str v) rest

unfoldable pub value_field : Json → Fields → Fields
value_field null rest = rest
value_field v rest = field "value" v rest

abbrev pub error_field : Option Fault → Fields
error_field none = end
error_field (some fault) = field "error" fault.document end

unfoldable pub marshal_command : Command → Json
unfolding text_field value_field
marshal_command c = obj (
    field "command" (str c.command) (
      field "ReceiveQueue" (str c.response_queue)
        (text_field "property" c.property (value_field c.value end))))

unfoldable pub marshal_response : Response → Json
unfolding text_field value_field
marshal_response r = obj (
    field "command" (str r.command)
      (text_field "property" r.property (value_field r.value (error_field r.error))))

-- A string field: any other value is an error, which leaves the field and goes on.
abbrev pub text_or : String → Json → String
text_or old (str v) = v
text_or old _ = old

-- One key of a command; the error of a wrong type is only logged.
unfoldable pub set_key : Command → String → Json → Command
unfolding same_key
set_key c key j =
    if same_key key "command"
    then record c { command = text_or c.command j }
    else if same_key key "ReceiveQueue"
    then record c { response_queue = text_or c.response_queue j }
    else if same_key key "property"
    then record c { property = text_or c.property j }
    else if same_key key "value"
    then record c { value = j }
    else c

unfoldable pub read_fields : Command → Fields → Command
read_fields c end = c
read_fields c (field key j rest) = read_fields (set_key c key j) rest

-- What `json.Unmarshal` leaves in a new command.
unfoldable pub read_command : Option Json → Command
unfolding read_fields
read_command (some (obj fields)) = read_fields empty_command fields
read_command _ = empty_command

pub record ConfigEntry {ℓ} (S : Type ℓ) : Type ℓ where
  pub set : S → String → Json → S × Option Fault
  pub get : S → String → Json × Option Fault
  pub default : Json

module _ {ℓ} {S : Type ℓ} (entries : Dict (ConfigEntry S)) where
  abbrev pub answer : Command → Json → Option Fault → Response
  answer c v none = record { command = c.command; property = ""; value = v; error = none }
  answer c v (some fault) = record {
    command = c.command;
    property = "";
    value = null;
    error = some fault;
  }

  abbrev pub unknown : Command → Fault
  unknown c = errorf (append "Could not find property named " c.property)

  abbrev get_in : S → Command → Option (ConfigEntry S) → Response
  get_in s c none = answer c null (some (unknown c))
  get_in s c (some entry) = let (v, e) = entry.get s c.property in answer c v e

  -- `Get`, before the response is sent
  unfoldable pub get : S → Command → Response
  get s c = get_in s c (Dict.get entries c.property)

  abbrev stored : Command → Json → S × Option Fault → S × Response
  stored c v (s, e) = (s, answer c v e)

  abbrev set_in : S → Command → Option (ConfigEntry S) → S × Response
  set_in s c none = (s, answer c null (some (unknown c)))
  set_in s c (some entry) = stored c c.value (entry.set s c.property c.value)

  -- `Set`, before the response is sent
  unfoldable pub set : S → Command → S × Response
  set s c = set_in s c (Dict.get entries c.property)

  abbrev reset_in : S → Command → Option (ConfigEntry S) → S × Response
  reset_in s c none = (s, answer c null (some (unknown c)))
  reset_in s c (some entry) = stored c entry.default (entry.set s c.property entry.default)

  -- `Reset`, before the response is sent
  unfoldable pub reset : S → Command → S × Response
  reset s c = reset_in s c (Dict.get entries c.property)

  abbrev marshalled : S × Response → S × Option Json
  marshalled (s, r) = (s, some (marshal_response r))

  unfoldable pub key_items : Dict (ConfigEntry S) → Items
  key_items [] = nil
  key_items ((k, entry) ∷ rest) = cons (str k) (key_items rest)

  abbrev switch : String → S → Command → S × Option Json
  switch command s c =
      if command == "getprops"
      then (s, some (arr (key_items entries)))
      else if command == "get"
      then (s, some (marshal_response (get s c)))
      else if command == "set"
      then marshalled (set s c)
      else if command == "reset"
      then marshalled (reset s c)
      else (s, none)

  -- The switch of `Run`: the new state and the document to send.
  unfoldable pub handle : S → Command → S × Option Json
  unfolding get set reset marshal_response key_items
  handle s c = switch c.command s c

  module _ (json : JsonText) (fails : ℕ → Option String) where
    open json use {Text, print, parse}

    abbrev respond : Bus Text → String → S × Option Json → S × Bus Text
    respond bus queue (s, none) = (s, bus)
    respond bus queue (s, some j) = (s, (send_message json fails bus (print j) queue).0)

    -- One message in the loop of `Run`
    unfoldable pub run : S → Bus Text → Text → S × Bus Text
    unfolding handle read_command send_message
    run s bus message =
        let c = read_command (parse message) in respond bus c.response_queue (handle s c)
