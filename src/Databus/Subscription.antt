-- ===== src/Databus/Subscription.antt =====
-- internal/databus/databus.go: `Subscribe` of the client, and the service that takes its message.
use i_drac_telemetry_referen.Common.{
  ℕ, true, false, ◌≡◌, ap, ◌∙◌, Option, none, List, [], ◌∷◌, ◌++◌, String, arith,
}
use i_drac_telemetry_referen.Common.Text.{◌==◌, eq_refl}
use i_drac_telemetry_referen.Json.{JsonText}
use i_drac_telemetry_referen.Wire.{Envelope, empty_envelope, nil, encode_envelope, new_envelope}
use i_drac_telemetry_referen.Service.{
  BaseClient, send_with_reply_to, send_to_with_reply_to, send_envelope, send_message,
  listen_to_queue,
}
use i_drac_telemetry_referen.Service.Calls.{decode_text_of}
use i_drac_telemetry_referen.Databus.{contains, handle_envelope, receive_envelopes}
use i_drac_telemetry_referen.Databus.Receivers.{contains-handle_envelope}

abbrev pub subscription : String → Envelope
subscription queue = record empty_envelope { type = "subscribe"; reply_to = queue }

module _ (json : JsonText) (fails : ℕ → Option String) where
  open json use {Text, print}

  -- `Get`
  unfoldable pub get : BaseClient Text → String → BaseClient Text × Option String
  unfolding send_with_reply_to
  get d reply_queue = send_with_reply_to json fails d "get" nil reply_queue

  -- `Subscribe`
  unfoldable pub subscribe : BaseClient Text → String → BaseClient Text × Option String
  unfolding send_with_reply_to
  subscribe d reply_queue = send_with_reply_to json fails d "subscribe" nil reply_queue

  subscribe_lem :
      (d : BaseClient Text) (queue : String)
      → fails d.bus.sends ≡ none
      → (subscribe d queue).0.bus.posted
        ≡ d.bus.posted ++ (d.command_queue, print (encode_envelope (subscription queue))) ∷ []
  unfolding subscribe send_with_reply_to send_to_with_reply_to send_envelope send_message
      new_envelope
  subscribe_lem d queue ok = rw (ok, send_message)

  received_lem :
      (receivers : List String) (queue : String)
      → (receive_envelopes json fails receivers
          (print (encode_envelope (subscription queue)) ∷ [])).0
        ≡ handle_envelope receivers (subscription queue)
  unfolding receive_envelopes listen_to_queue
  received_lem receivers queue =
      rw (decode_text_of json fails (subscription queue), listen_to_queue)

  -- If the bus takes the message, subscribing a queue with a name puts one message on the command
  -- queue, and a service that reads it has the queue among its receivers.
  pub subscribe-receive_envelopes :
      (d : BaseClient Text) (queue : String) (receivers : List String)
      → fails d.bus.sends ≡ none
      → (queue == "") ≡ false
      → (message : Text) × ((subscribe d queue).0.bus.posted
          ≡ d.bus.posted ++ (d.command_queue, message) ∷ [])
        × (contains (receive_envelopes json fails receivers (message ∷ [])).0 queue ≡ true)
  subscribe-receive_envelopes d queue receivers ok named = (
    print (encode_envelope (subscription queue)),
    subscribe_lem d queue ok,
    ap (λ rs. contains rs queue) (received_lem receivers queue)
        ∙ contains-handle_envelope receivers (subscription queue) queue
        ∙ ground (arith, eq_refl queue),
  )
