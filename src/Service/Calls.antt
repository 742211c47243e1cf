-- ===== src/Service/Calls.antt =====
-- A request, the reply of a service, and what the call returns.
use i_drac_telemetry_referen.Common.{
  ℕ, suc, false, ◌≡◌, refl, sym, ap, ◌∙◌, ◌⊎◌, inl, inr, Option, none, some, [], ◌∷◌, ◌++◌, String,
  if◌then◌else◌,
}
use i_drac_telemetry_referen.Common.Dict
use i_drac_telemetry_referen.Common.Dict.{Dict, get-put_same, get-remove_same}
use i_drac_telemetry_referen.Common.Text.{◌==◌}
use i_drac_telemetry_referen.Json.{Json, JsonText}
use i_drac_telemetry_referen.Wire.{
  Envelope, empty_envelope, Marshalled, Random, new_correlation_id, nil, document, new_request,
  reply_ok, reply_err, encode_envelope, status_ok, message_of,
}
use i_drac_telemetry_referen.Wire.RoundTrip.{decode-encode_envelope}
use i_drac_telemetry_referen.Service.{
  Bus, BaseClient, CallResult, response, call_error, begin_call, receive_reply, finish_call,
  time_out, decode_text, send_envelope, send_message, forget, result_of, finished,
  init_reply_listener, once, after_init, with_request, registered, take_reply, into_channel, reply,
  reply_error,
}

abbrev pub marshalled : Option Json → Marshalled
marshalled none = nil
marshalled (some j) = document j

module _ (json : JsonText) (fails : ℕ → Option String) where
  open json use {Text, print, parse, parse-print}

  abbrev pub text_of : Envelope → Text
  text_of env = print (encode_envelope env)

  -- The text of an envelope is read back.
  pub decode_text_of : (env : Envelope) → decode_text json fails (text_of env) ≡ some env
  unfolding decode_text
  decode_text_of env = rw parse-print (decode-encode_envelope env)

  abbrev pub delivered : Bus Text → String → Envelope → Bus Text
  delivered bus queue env = record {
    posted = bus.posted ++ (queue, text_of env) ∷ [];
    sends = suc bus.sends;
  }

  send_envelope_lem :
      (bus : Bus Text) (queue : String) (env : Envelope)
      → fails bus.sends ≡ none
      → send_envelope json fails bus queue env ≡ (delivered bus queue env, none)
  unfolding send_envelope send_message
  send_envelope_lem bus queue env ok = rw (ok, send_message)

  -- Both sides of a call: the envelopes of the request and of the replies.
  abbrev pub request : String → Option Json → String → Random → Envelope
  request msg_type payload reply_queue random = record empty_envelope {
    type = msg_type;
    correlation_id = new_correlation_id "req" random;
    reply_to = reply_queue;
    payload = payload;
  }

  new_request_lem :
      (msg_type : String) (payload : Option Json) (q : String) (random : Random)
      → new_request msg_type (marshalled payload) q random
        ≡ some (request msg_type payload q random)
  unfolding new_request
  new_request_lem msg_type none q random = refl
  new_request_lem msg_type (some j) q random = refl

  abbrev pub ok_answer : Envelope → Option Json → Envelope
  ok_answer req payload = record empty_envelope {
    type = req.type;
    correlation_id = req.correlation_id;
    status = status_ok;
    payload = payload;
  }

  reply_ok_lem :
      (req : Envelope) (payload : Option Json)
      → reply_ok req (marshalled payload) ≡ some (ok_answer req payload)
  unfolding reply_ok
  reply_ok_lem req none = refl
  reply_ok_lem req (some j) = refl

  module _ (bc : BaseClient Text) (msg_type : String) (payload : Option Json)
      (random : Random) where
    -- The request of a call
    abbrev pub asked : Envelope
    asked = request msg_type payload bc.reply_queue random

    abbrev pub id : String
    id = asked.correlation_id

    -- The client that waits for the reply
    abbrev pub waiting : BaseClient Text
    waiting = record bc {
      bus = delivered bc.bus bc.command_queue asked;
      pending = Dict.put bc.pending id none;
    }

    -- The client whose reply has come
    abbrev pub served : Envelope → BaseClient Text
    served env = record waiting { pending = Dict.put waiting.pending id (some env) }

    module _ (listening : bc.reply_once ≡ some none) (sent : fails bc.bus.sends ≡ none) where
      init_lem : init_reply_listener json fails bc none ≡ (bc, none)
      unfolding init_reply_listener
      init_lem = ap (once json fails bc none) listening

      begin_call_lem :
          begin_call json fails bc none msg_type (marshalled payload) random ≡ (waiting, none)
      unfolding begin_call
      begin_call_lem =
          ap (after_init json fails msg_type (marshalled payload) random) init_lem
          ∙ ap (with_request json fails bc) (new_request_lem msg_type payload bc.reply_queue random)
          ∙ ap (registered json fails (record bc { pending = Dict.put bc.pending id none }) id)
              (send_envelope_lem bc.bus bc.command_queue asked sent)

      receive_lem :
          (env : Envelope)
          → env.correlation_id ≡ id
          → receive_reply json fails waiting (text_of env)
            ≡ record waiting { pending = Dict.put waiting.pending id (some env) }
      unfolding receive_reply
      receive_lem env same =
          ap (take_reply json fails waiting) (decode_text_of env)
          ∙ ap (into_channel json fails waiting env)
              (ap (Dict.get waiting.pending) same ∙ get-put_same bc.pending id none)
          ∙ ap (λ k. record waiting { pending = Dict.put waiting.pending k (some env) }) same

      finish_lem :
          (env : Envelope)
          → finish_call json fails (served env) id
            ≡ some (forget json fails (served env) id, result_of json fails env)
      unfolding finish_call
      finish_lem env =
          ap (finished json fails (served env) id) (get-put_same waiting.pending id (some env))

      module _ (bus : Bus Text) (free : fails bus.sends ≡ none)
          (named : (bc.reply_queue == "") ≡ false) where
        reply_lem :
            (answer : Option Json)
            → reply json fails bus asked (marshalled answer)
              ≡ (delivered bus bc.reply_queue (ok_answer asked answer), none)
        unfolding reply
        reply_lem answer =
            rw (named, reply_ok_lem asked answer)
              (send_envelope_lem bus bc.reply_queue (ok_answer asked answer) free)

        reply_error_lem :
            (err : Option String)
            → reply_error json fails bus asked err
              ≡ (delivered bus bc.reply_queue (reply_err asked err), none)
        unfolding reply_error
        reply_error_lem err =
            rw named (send_envelope_lem bus bc.reply_queue (reply_err asked err) free)

        -- A call whose client listens for replies puts its request on the command queue; there the
        -- request is read back, and the reply of a service goes to the client's reply queue; the
        -- listener's reading of the reply ends the call with the payload of the reply. Both sends
        -- succeed, and the reply queue has a name.
        pub call_reply :
            (answer : Option Json)
            → (begin_call json fails bc none msg_type (marshalled payload) random ≡ (waiting, none))
              × (decode_text json fails (text_of asked) ≡ some asked)
              × (reply json fails bus asked (marshalled answer)
                  ≡ (delivered bus bc.reply_queue (ok_answer asked answer), none))
              × (finish_call json fails
                    (receive_reply json fails waiting (text_of (ok_answer asked answer)))
                    id
                  ≡ some (forget json fails (served (ok_answer asked answer)) id, response answer))
        call_reply answer = (
          begin_call_lem,
          decode_text_of asked,
          reply_lem answer,
          ap (λ c. finish_call json fails c id) (receive_lem (ok_answer asked answer) refl)
              ∙ finish_lem (ok_answer asked answer),
        )

        -- The same call, where the service replies with an error: the call ends with the text of the
        -- error, or with "request failed" when there is no text.
        pub call_reply_error :
            (err : Option String)
            → (begin_call json fails bc none msg_type (marshalled payload) random ≡ (waiting, none))
              × (decode_text json fails (text_of asked) ≡ some asked)
              × (reply_error json fails bus asked err
                  ≡ (delivered bus bc.reply_queue (reply_err asked err), none))
              × (finish_call json fails
                    (receive_reply json fails waiting (text_of (reply_err asked err)))
                    id
                  ≡ some (
                    forget json fails (served (reply_err asked err)) id,
                    call_error (if message_of err == "" then "request failed" else message_of err),
                  ))
        unfolding reply_err
        call_reply_error err = (
          begin_call_lem,
          decode_text_of asked,
          reply_error_lem err,
          ap (λ c. finish_call json fails c id) (receive_lem (reply_err asked err) refl)
              ∙ finish_lem (reply_err asked err),
        )

  ignored :
      (bc : BaseClient Text) (env : Envelope)
      → Dict.get bc.pending env.correlation_id ≡ none
      → receive_reply json fails bc (text_of env) ≡ bc
  unfolding receive_reply
  ignored bc env gone =
      ap (take_reply json fails bc) (decode_text_of env) ∙ ap (into_channel json fails bc env) gone

  finished-forget :
      (bc bc' : BaseClient Text) (id : String) (r : CallResult) (c : Option (Option Envelope))
      → finished json fails bc id c ≡ some (bc', r)
      → bc' ≡ forget json fails bc id
  finished-forget bc bc' id r none e = cc
  finished-forget bc bc' id r (some none) e = cc
  finished-forget bc bc' id r (some (some env)) e = cc

  ignored_after :
      (bc : BaseClient Text) (env : Envelope)
      → receive_reply json fails (forget json fails bc env.correlation_id) (text_of env)
        ≡ forget json fails bc env.correlation_id
  ignored_after bc env =
      ignored (forget json fails bc env.correlation_id) env
        (get-remove_same bc.pending env.correlation_id)

  -- A reply to a call that has timed out, or that has returned, leaves the client as it is.
  pub late_reply :
      (bc bc' : BaseClient Text) (env : Envelope) (r : CallResult)
      → ((time_out json fails bc env.correlation_id ≡ (bc', r))
          ⊎ (finish_call json fails bc env.correlation_id ≡ some (bc', r)))
      → receive_reply json fails bc' (text_of env) ≡ bc'
  unfolding time_out finish_call
  late_reply bc bc' env r (inl e) =
      rw (ap (λ (p : BaseClient Text × CallResult). p.0) (sym e)) (ignored_after bc env)
  late_reply bc bc' env r (inr e) =
      rw (finished-forget bc bc' env.correlation_id r (Dict.get bc.pending env.correlation_id) e)
        (ignored_after bc env)
