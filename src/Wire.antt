-- ===== src/Wire.antt =====
-- internal/wire/envelope.go: the envelopes of the message bus, as documents and in their making.
-- A raw payload is nil or a document. `any` payloads are `none` for nil, or the outcome of
-- `json.Marshal`. Random ids come as the outcome of `rand.Read`, with the clock for its failure.
pub mod RoundTrip
use i_drac_telemetry_referen.Common.{
  ℕ, zero, suc, ◌/◌, ◌%◌, Bool, true, false, Option, none, some, List, [], ◌∷◌, String,
  if◌then◌else◌, Bytes,
}
use i_drac_telemetry_referen.Common.Text.{◌==◌, append}
use i_drac_telemetry_referen.Json.{Json, Fields, null, str, obj, end, field, same_key}

pub record Envelope : Type 0 where
  pub type : String
  pub correlation_id : String
  pub reply_to : String
  pub status : String
  pub error : String
  pub payload : Option Json

abbrev pub empty_envelope : Envelope
empty_envelope = record {
  type = "";
  correlation_id = "";
  reply_to = "";
  status = "";
  error = "";
  payload = none;
}

abbrev pub status_ok : String
status_ok = "ok"

abbrev pub status_error : String
status_error = "error"

-- `omitempty` on a string and on a raw message.
unfoldable pub text_field : String → String → Fields → Fields
text_field key v rest = if v == "" then rest else field key (str v) rest

abbrev pub payload_field : Option Json → Fields
payload_field none = end
payload_field (some j) = field "payload" j end

-- `EncodeEnvelope`, before the document is written as text.
unfoldable pub encode_envelope : Envelope → Json
encode_envelope env = obj (
    field "type" (str env.type) (
      text_field "correlationId" env.correlation_id (
        text_field "replyTo" env.reply_to (
          text_field "status" env.status
            (text_field "error" env.error (payload_field env.payload))))))

-- A string field of a struct: null leaves it as it is, and any other value than a string is an error.
abbrev pub set_text : Envelope → (String → Envelope) → Json → Option Envelope
set_text env set null = some env
set_text env set (str v) = some (set v)
set_text env set _ = none

-- One key of the document; keys that no field has are passed over.
unfoldable pub set_key : Envelope → String → Json → Option Envelope
unfolding same_key
set_key env key j =
    if same_key key "type"
    then set_text env (λ v. record env { type = v }) j
    else if same_key key "correlationId"
    then set_text env (λ v. record env { correlation_id = v }) j
    else if same_key key "replyTo"
    then set_text env (λ v. record env { reply_to = v }) j
    else if same_key key "status"
    then set_text env (λ v. record env { status = v }) j
    else if same_key key "error"
    then set_text env (λ v. record env { error = v }) j
    else if same_key key "payload"
    then some (record env { payload = some j })
    else some env

unfoldable pub decode_fields : Envelope → Fields → Option Envelope
decode_fields env end = some env
decode_fields env (field key j rest) = elim (set_key env key j) [
  | none ↦ none
  | some env' ↦ decode_fields env' rest
]

-- `DecodeEnvelope`; `none` for an error.
unfoldable pub decode_envelope : Json → Option Envelope
decode_envelope null = some empty_envelope
decode_envelope (obj fields) = decode_fields empty_envelope fields
decode_envelope _ = none

-- A payload that is nil, or what `json.Marshal` makes of it.
pub data Marshalled : Type 0 where
  nil : Marshalled
  document : Json → Marshalled
  failure : Marshalled

-- `EncodePayload`; `none` for an error.
unfoldable pub encode_payload : Marshalled → Option (Option Json)
encode_payload nil = some none
encode_payload (document j) = some (some j)
encode_payload failure = none

infixl 5 ◌>>=◌
abbrev pub ◌>>=◌ {ℓ κ} : {A : Type ℓ} {B : Type κ} → Option A → (A → Option B) → Option B
none >>= f = none
some a >>= f = f a

-- `NewEnvelope`
unfoldable pub new_envelope : String → Marshalled → Option Envelope
unfolding encode_payload
new_envelope msg_type payload = do
  raw ← encode_payload payload
  some (record empty_envelope { type = msg_type; payload = raw })

-- What `rand.Read` gives: the text of the bytes in hexadecimal, or an error and the clock's text.
pub data Random : Type 0 where
  bytes : String → Random
  clock : String → Random

-- `NewCorrelationID`
unfoldable pub new_correlation_id : String → Random → String
unfolding append
new_correlation_id prefix (clock t) =
    if prefix == "" then append "id-" t else append prefix (append "-" t)
new_correlation_id prefix (bytes id) = if prefix == "" then id else append prefix (append "-" id)

-- `NewRequest`
unfoldable pub new_request : String → Marshalled → String → Random → Option Envelope
unfolding new_envelope
new_request msg_type payload reply_to random = do
  env ← new_envelope msg_type payload
  some (record env { reply_to = reply_to; correlation_id = new_correlation_id "req" random })

-- `ReplyOK`
unfoldable pub reply_ok : Envelope → Marshalled → Option Envelope
unfolding new_envelope
reply_ok req payload = do
  env ← new_envelope req.type payload
  some (record env { correlation_id = req.correlation_id; status = status_ok })

-- `NewReply`
unfoldable pub new_reply : String → String → Marshalled → Option Envelope
unfolding encode_payload
new_reply correlation_id msg_type payload = do
  raw ← encode_payload payload
  some (record empty_envelope {
    type = msg_type;
    correlation_id = correlation_id;
    status = status_ok;
    payload = raw;
  })

-- `NewErrorReply`
unfoldable pub new_error_reply : String → String → Envelope
new_error_reply correlation_id error_msg = record empty_envelope {
  correlation_id = correlation_id;
  status = status_error;
  error = error_msg;
}

abbrev pub message_of : Option String → String
message_of none = ""
message_of (some msg) = msg

-- `ReplyErr`, with the text of the error or nil.
unfoldable pub reply_err : Envelope → Option String → Envelope
reply_err req err = record empty_envelope {
  type = req.type;
  correlation_id = req.correlation_id;
  status = status_error;
  error = message_of err;
}

-- `NewReplyQueue`
unfoldable pub new_reply_queue : String → String → Random → String
unfolding new_correlation_id
new_reply_queue queue_prefix client_prefix random =
    let id = new_correlation_id "" random in
    let queue = if queue_prefix == "" then "/queue/reply." else queue_prefix in
    if client_prefix == ""
    then append queue id
    else append queue (append client_prefix (append "-" id))
