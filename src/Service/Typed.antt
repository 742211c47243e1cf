-- ===== src/Service/Typed.antt =====
-- Listening for envelopes of one type and decoding their payloads, as the clients of the services do.
use i_drac_telemetry_referen.Common.{
  ℕ, Bool, false, ◌≡◌, refl, ap, ◌∙◌, ◌⊎◌, inl, inr, Option, none, some, List, [], ◌∷◌, String,
  if◌then◌else◌,
}
use i_drac_telemetry_referen.Common.Text.{◌==◌, eq_refl}
use i_drac_telemetry_referen.Json.{Json, JsonText}
use i_drac_telemetry_referen.Wire.{Envelope, empty_envelope, encode_envelope}
use i_drac_telemetry_referen.Service.{listen_to_queue_filtered}
use i_drac_telemetry_referen.Service.Calls.{decode_text_of}

module _ {ℓ} {P : Type ℓ} (empty : P) (read : Json → Option P) where
  -- `DecodePayload` into a new value, which an envelope with no payload leaves as it is.
  abbrev pub decode_payload : Option Json → Option P
  decode_payload none = some empty
  decode_payload (some j) = read j

  abbrev followed_by : Option P → List P → List P
  followed_by none ps = ps
  followed_by (some p) ps = p ∷ ps

  -- The loop over the envelopes; a payload that cannot be decoded is passed over.
  unfoldable pub payloads : List Envelope → List P
  payloads [] = []
  payloads (env ∷ envs) = followed_by (decode_payload env.payload) (payloads envs)

  module _ (json : JsonText) (fails : ℕ → Option String) (message_type : String) where
    open json use {Text, print}

    unfoldable pub received : List Text → List P
    unfolding payloads listen_to_queue_filtered
    received messages = payloads (listen_to_queue_filtered json fails message_type messages)

    abbrev kept : Bool → Envelope → List Envelope → List Envelope
    kept b env envs = if b then env ∷ envs else envs

    filtered_first :
        (env : Envelope) (rest : List Text)
        → listen_to_queue_filtered json fails message_type (print (encode_envelope env) ∷ rest)
          ≡ kept
              (env.type == message_type)
              env
              (listen_to_queue_filtered json fails message_type rest)
    unfolding listen_to_queue_filtered
    filtered_first env rest = rw (decode_text_of json fails env, listen_to_queue_filtered)

    module _ {κ} (marshal : P → Json) (Ok : P → Type κ) where
      -- The messages of a queue: values that a service has sent, and other envelopes.
      abbrev pub envelope_of : P ⊎ Envelope → Envelope
      envelope_of (inl p) = record empty_envelope {
        type = message_type;
        payload = some (marshal p);
      }
      envelope_of (inr env) = env

      abbrev pub texts : List (P ⊎ Envelope) → List Text
      texts [] = []
      texts (m ∷ ms) = print (encode_envelope (envelope_of m)) ∷ texts ms

      -- The values are good, and the other envelopes are not of the type.
      abbrev pub Others : List (P ⊎ Envelope) → Type κ
      Others [] = Unit
      Others (inl p ∷ ms) = Ok p × Others ms
      Others (inr env ∷ ms) = ((env.type == message_type) ≡ false) × Others ms

      abbrev pub values_in : List (P ⊎ Envelope) → List P
      values_in [] = []
      values_in (inl p ∷ ms) = p ∷ values_in ms
      values_in (inr env ∷ ms) = values_in ms

      module _ (back : (p : P) → Ok p → read (marshal p) ≡ some p) where
        -- A client gets the values that a service has sent, in order.
        pub received-texts :
            (ms : List (P ⊎ Envelope)) → Others ms → received (texts ms) ≡ values_in ms
        unfolding received payloads
        received-texts [] h = refl
        received-texts (inl p ∷ ms) h =
            ap payloads (filtered_first (envelope_of (inl p)) (texts ms))
            ∙ ap
                (λ b. payloads (
                  kept b (envelope_of (inl p))
                    (listen_to_queue_filtered json fails message_type (texts ms))))
                (eq_refl message_type)
            ∙ ap (λ o. followed_by o (received (texts ms))) (back p h.0)
            ∙ ap (λ ps. p ∷ ps) (received-texts ms h.1)
        received-texts (inr env ∷ ms) h =
            ap payloads (filtered_first env (texts ms))
            ∙ ap
                (λ b.
                  payloads
                    (kept b env (listen_to_queue_filtered json fails message_type (texts ms))))
                h.0
            ∙ received-texts ms h.1
