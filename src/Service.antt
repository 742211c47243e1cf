-- ===== src/Service.antt =====
-- internal/service/service.go: clients and services over a message bus.
-- The bus is a parameter: `fails n` is the outcome of the n-th `SendMessage`, and the messages that
-- it took are `posted`, each with its queue. `Call` is taken apart where it waits: `begin_call` runs
-- up to the select, and then `finish_call` or `time_out` is the case that the select takes.
-- `receive_reply` is one round of the goroutine that listens for replies. The lock makes each access
-- to `pending` one step; a channel of one place is `none` or `some` of its envelope.
pub mod Correlation
pub mod Calls
pub mod Typed
use i_drac_telemetry_referen.Common.{
  ℕ, zero, suc, Bool, true, false, Option, none, some, List, [], ◌∷◌, ◌++◌, String, if◌then◌else◌,
}
use i_drac_telemetry_referen.Common.Dict
use i_drac_telemetry_referen.Common.Dict.{Dict}
use i_drac_telemetry_referen.Common.Text.{◌==◌, append}
use i_drac_telemetry_referen.Json.{Json, JsonText}
use i_drac_telemetry_referen.Wire.{
  Envelope, Marshalled, Random, encode_envelope, decode_envelope, new_envelope, new_request,
  reply_ok, reply_err, status_error,
}

pub record Bus (T : Type 0) : Type 0 where
  pub posted : List (String × T)
  pub sends : ℕ

pub record BaseClient (T : Type 0) : Type 0 where
  pub bus : Bus T
  pub command_queue : String
  pub reply_prefix : String
  pub client_name : String
  pub reply_queue : String
  -- What `ReplyOnce` has left behind, once it has run: the error of the subscription.
  pub reply_once : Option (Option String)
  pub pending : Dict (Option Envelope)

-- `NewBaseClient`
abbrev pub new_base_client : {T : Type 0} → Bus T → String → String → String → BaseClient T
new_base_client bus command_queue reply_prefix client_name = record {
  bus = bus;
  command_queue = command_queue;
  reply_prefix = reply_prefix;
  client_name = client_name;
  reply_queue = "";
  reply_once = none;
  pending = [];
}

-- What `Call` returns: the payload that is decoded into the response, or an error.
pub data CallResult : Type 0 where
  response : Option Json → CallResult
  call_error : String → CallResult

-- An error of `json.Marshal`.
abbrev pub marshal_error : String
marshal_error = "json: unsupported type"

module _ (json : JsonText) (fails : ℕ → Option String) where
  open json use {Text, print, parse}

  -- `Bus.SendMessage`
  unfoldable pub send_message : Bus Text → Text → String → Bus Text × Option String
  send_message bus message queue = elim (fails bus.sends) [
    | none ↦ (record { posted = bus.posted ++ (queue, message) ∷ []; sends = suc bus.sends }, none)
    | some e ↦ (record bus { sends = suc bus.sends }, some e)
  ]

  -- `SendEnvelope` of clients and of services
  unfoldable pub send_envelope : Bus Text → String → Envelope → Bus Text × Option String
  unfolding send_message
  send_envelope bus queue env = send_message bus (print (encode_envelope env)) queue

  abbrev send_new : Bus Text → String → Option Envelope → Bus Text × Option String
  send_new bus queue none = (bus, some marshal_error)
  send_new bus queue (some env) = send_envelope bus queue env

  -- `SendTo` of clients and of services
  unfoldable pub send_to : Bus Text → String → String → Marshalled → Bus Text × Option String
  unfolding send_envelope
  send_to bus queue msg_type payload = send_new bus queue (new_envelope msg_type payload)

  abbrev addressed : String → Option Envelope → Option Envelope
  addressed reply_to none = none
  addressed reply_to (some env) = some (record env { reply_to = reply_to })

  -- `SendToWithReplyTo`
  unfoldable pub send_to_with_reply_to :
      Bus Text → String → String → Marshalled → String → Bus Text × Option String
  unfolding send_envelope
  send_to_with_reply_to bus queue msg_type payload reply_to =
      send_new bus queue (addressed reply_to (new_envelope msg_type payload))

  -- `SendWithReplyTo`
  unfoldable pub send_with_reply_to :
      BaseClient Text → String → Marshalled → String → BaseClient Text × Option String
  unfolding send_to_with_reply_to
  send_with_reply_to bc msg_type payload reply_to =
      let (bus, e) = send_to_with_reply_to bc.bus bc.command_queue msg_type payload reply_to in
      (record bc { bus = bus }, e)

  -- `Reply`
  unfoldable pub reply : Bus Text → Envelope → Marshalled → Bus Text × Option String
  unfolding send_envelope
  reply bus req payload =
      if req.reply_to == ""
      then (bus, some "reply queue missing")
      else send_new bus req.reply_to (reply_ok req payload)

  -- `ReplyError`
  unfoldable pub reply_error : Bus Text → Envelope → Option String → Bus Text × Option String
  unfolding send_envelope
  reply_error bus req err =
      if req.reply_to == ""
      then (bus, some "reply queue missing")
      else send_envelope bus req.reply_to (reply_err req err)

  -- `ReplyOnce.Do`, with what `ReceiveMessage` returns if it is called.
  abbrev once :
      BaseClient Text → Option String → Option (Option String) → BaseClient Text × Option String
  once bc subscribed (some e) = (bc, e)
  once bc subscribed none = (
    record bc { reply_queue = append bc.reply_prefix bc.client_name; reply_once = some subscribed },
    subscribed,
  )

  -- `initReplyListener`
  unfoldable pub init_reply_listener :
      BaseClient Text → Option String → BaseClient Text × Option String
  init_reply_listener bc subscribed = once bc subscribed bc.reply_once

  abbrev pub forget : BaseClient Text → String → BaseClient Text
  forget bc id = record bc { pending = Dict.remove bc.pending id }

  -- The request has been registered; a failure to send it takes it out again.
  abbrev registered :
      BaseClient Text → String → Bus Text × Option String → BaseClient Text × Option String
  registered bc id (bus, none) = (record bc { bus = bus }, none)
  registered bc id (bus, some e) = (forget (record bc { bus = bus }) id, some e)

  abbrev with_request : BaseClient Text → Option Envelope → BaseClient Text × Option String
  with_request bc none = (bc, some marshal_error)
  with_request bc (some req) =
      let bc' = record bc { pending = Dict.put bc.pending req.correlation_id none } in
      registered bc' req.correlation_id (send_envelope bc.bus bc.command_queue req)

  abbrev after_init :
      String
      → Marshalled
      → Random
      → BaseClient Text × Option String
      → BaseClient Text × Option String
  after_init msg_type payload random (bc, some e) = (bc, some e)
  after_init msg_type payload random (bc, none) =
      with_request bc (new_request msg_type payload bc.reply_queue random)

  -- `Call` up to its select; an error ends it.
  unfoldable pub begin_call :
      BaseClient Text
      → Option String
      → String
      → Marshalled
      → Random
      → BaseClient Text × Option String
  unfolding init_reply_listener send_envelope
  begin_call bc subscribed msg_type payload random =
      after_init msg_type payload random (init_reply_listener bc subscribed)

  -- The send on a channel of one place, which a full channel refuses.
  abbrev into_channel : BaseClient Text → Envelope → Option (Option Envelope) → BaseClient Text
  into_channel bc env none = bc
  into_channel bc env (some (some e)) = bc
  into_channel bc env (some none) = record bc {
    pending = Dict.put bc.pending env.correlation_id (some env);
  }

  abbrev take_reply : BaseClient Text → Option Envelope → BaseClient Text
  take_reply bc none = bc
  take_reply bc (some env) = into_channel bc env (Dict.get bc.pending env.correlation_id)

  abbrev decoded : Option Json → Option Envelope
  decoded none = none
  decoded (some j) = decode_envelope j

  -- `DecodeEnvelope` on the text of a message
  unfoldable pub decode_text : Text → Option Envelope
  decode_text message = decoded (parse message)

  -- One message in `listenForReplies`
  unfoldable pub receive_reply : BaseClient Text → Text → BaseClient Text
  unfolding decode_text
  receive_reply bc message = take_reply bc (decode_text message)

  abbrev pub result_of : Envelope → CallResult
  result_of env =
      if env.status == status_error
      then call_error (if env.error == "" then "request failed" else env.error)
      else response env.payload

  abbrev finished :
      BaseClient Text → String → Option (Option Envelope) → Option (BaseClient Text × CallResult)
  finished bc id none = none
  finished bc id (some none) = none
  finished bc id (some (some env)) = some (forget bc id, result_of env)

  -- The select's first case; `none` while the channel is empty.
  unfoldable pub finish_call : BaseClient Text → String → Option (BaseClient Text × CallResult)
  finish_call bc id = finished bc id (Dict.get bc.pending id)

  -- The select's second case
  unfoldable pub time_out : BaseClient Text → String → BaseClient Text × CallResult
  time_out bc id =
      (forget bc id, call_error (append "timeout waiting for message from queue " bc.reply_queue))

  -- `ListenToQueue` over the messages of a queue: the state that the hook keeps, and the envelopes
  -- that are passed on. A message that cannot be decoded is passed over.
  unfoldable pub listen_to_queue {ℓ} :
      {S : Type ℓ} → (S → Envelope → S) → S → List Text → S × List Envelope
  listen_to_queue hook s [] = (s, [])
  listen_to_queue hook s (message ∷ rest) = elim (decode_text message) [
    | none ↦ listen_to_queue hook s rest
    | some env ↦ let (s', envs) = listen_to_queue hook (hook s env) rest in (s', env ∷ envs)
  ]

  -- `ListenToQueueFiltered`, up to its cancellation
  unfoldable pub listen_to_queue_filtered : String → List Text → List Envelope
  listen_to_queue_filtered message_type [] = []
  listen_to_queue_filtered message_type (message ∷ rest) =
      let later = listen_to_queue_filtered message_type rest in
      elim (decode_text message) [
        | none ↦ later
        | some env ↦ if env.type == message_type then env ∷ later else later
      ]
