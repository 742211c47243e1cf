-- ===== src/Wire/RoundTrip.antt =====
-- Every envelope is read back from its document.
use i_drac_telemetry_referen.Common.{
  ◌≡◌, refl, ◌∙◌, inl, inr, Option, none, some, String, Bool-cases,
}
use i_drac_telemetry_referen.Common.Text.{◌==◌, eq_iff}
use i_drac_telemetry_referen.Common.Ascii.{to_lower, lower}
use i_drac_telemetry_referen.Json.{Json, Fields, str, field}
use i_drac_telemetry_referen.Wire.{
  Envelope, empty_envelope, text_field, payload_field, encode_envelope, set_key, decode_fields,
  decode_envelope,
}

decode_fields_known :
    (env env' : Envelope) (key : String) (j : Json) (rest : Fields)
    → set_key env key j ≡ some env'
    → decode_fields env (field key j rest) ≡ decode_fields env' rest
unfolding decode_fields
decode_fields_known env env' key j rest e = rw (e, decode_fields)

-- A field that `omitempty` leaves out is empty already.
decode_fields-text_field :
    (env env' : Envelope) (key v : String) (rest : Fields)
    → (v ≡ "" → env ≡ env')
    → set_key env key (str v) ≡ some env'
    → decode_fields env (text_field key v rest) ≡ decode_fields env' rest
unfolding text_field
decode_fields-text_field env env' key v rest empty full = elim (Bool-cases (v == "")) [
  | inl e ↦ rw e (rw (empty ((eq_iff v "").0 e)))
  | inr e ↦ rw e (decode_fields_known env env' key (str v) rest full)
]

decode_fields-payload_field :
    (env : Envelope) (p : Option Json)
    → env.payload ≡ none
    → decode_fields env (payload_field p) ≡ some (record env { payload = p })
unfolding decode_fields set_key to_lower lower
decode_fields-payload_field env none h = rw (← h)
decode_fields-payload_field env (some j) h = refl

module _ (env : Envelope) where
  abbrev typed : Envelope
  typed = record empty_envelope { type = env.type }

  abbrev correlated : Envelope
  correlated = record typed { correlation_id = env.correlation_id }

  abbrev returning : Envelope
  returning = record correlated { reply_to = env.reply_to }

  abbrev decided : Envelope
  decided = record returning { status = env.status }

  abbrev blamed : Envelope
  blamed = record decided { error = env.error }

  decode_encoded :
      decode_envelope (encode_envelope env)
      ≡ decode_fields empty_envelope (
          field "type" (str env.type) (
            text_field "correlationId" env.correlation_id (
              text_field "replyTo" env.reply_to (
                text_field "status" env.status
                  (text_field "error" env.error (payload_field env.payload))))))
  unfolding decode_envelope encode_envelope
  decode_encoded = refl

  set_type : set_key empty_envelope "type" (str env.type) ≡ some typed
  unfolding set_key to_lower lower
  set_type = refl

  set_correlation_id : set_key typed "correlationId" (str env.correlation_id) ≡ some correlated
  unfolding set_key to_lower lower
  set_correlation_id = refl

  set_reply_to : set_key correlated "replyTo" (str env.reply_to) ≡ some returning
  unfolding set_key to_lower lower
  set_reply_to = refl

  set_status : set_key returning "status" (str env.status) ≡ some decided
  unfolding set_key to_lower lower
  set_status = refl

  set_error : set_key decided "error" (str env.error) ≡ some blamed
  unfolding set_key to_lower lower
  set_error = refl

  -- Reading the document of an envelope gives the envelope.
  pub decode-encode_envelope : decode_envelope (encode_envelope env) ≡ some env
  decode-encode_envelope =
      decode_encoded
      ∙ decode_fields_known empty_envelope typed "type" _ _ set_type
      ∙ decode_fields-text_field typed correlated "correlationId" _ _ (λ e. rw e) set_correlation_id
      ∙ decode_fields-text_field correlated returning "replyTo" _ _ (λ e. rw e) set_reply_to
      ∙ decode_fields-text_field returning decided "status" _ _ (λ e. rw e) set_status
      ∙ decode_fields-text_field decided blamed "error" _ _ (λ e. rw e) set_error
      ∙ decode_fields-payload_field blamed env.payload refl
