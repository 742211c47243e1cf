-- ===== src/Auth/States.antt =====
-- The updates of the states of services.
use i_drac_telemetry_referen.Common.{
  ℕ, true, ◌≡◌, sym, append-nil, inl, inr, Option, none, some, List, [], ◌∷◌, ◌++◌, String,
  Option-cases,
}
use i_drac_telemetry_referen.Json.{JsonText}
use i_drac_telemetry_referen.Wire.{Envelope, empty_envelope, encode_envelope, new_envelope}
use i_drac_telemetry_referen.Service.{BaseClient, decode_text, send_to, send_envelope, send_message}
use i_drac_telemetry_referen.Service.Calls.{decode_text_of}
use i_drac_telemetry_referen.Auth.{IntText, Service, empty_service, marshal_service, read_service}
use i_drac_telemetry_referen.Auth.RoundTrip.{read_service-marshal_service}
use i_drac_telemetry_referen.Auth.Client.{
  is_service_state, send, update_service, update_service_state,
}

abbrev pub in_state : String → String → Service
in_state sip state = record empty_service { ip = sip; state = state }

module _ (json : JsonText) (fails : ℕ → Option String) (ints : IntText) where
  open json use {Text, print}

  abbrev pub update_envelope : Service → Envelope
  update_envelope service = record empty_envelope {
    type = "updateservice";
    payload = some (marshal_service ints service);
  }

  -- What a send adds to the bus
  abbrev pub taken_if : Option String → String → Text → List (String × Text)
  taken_if none queue message = (queue, message) ∷ []
  taken_if (some e) queue message = []

  update_service_lem :
      (ac : BaseClient Text) (service : Service)
      → (update_service json fails ints ac service).0.bus.posted
        ≡ ac.bus.posted
          ++ taken_if
              (fails ac.bus.sends)
              ac.command_queue
              (print (encode_envelope (update_envelope service)))
  unfolding update_service send send_to send_envelope send_message new_envelope
  update_service_lem ac service = elim (Option-cases (fails ac.bus.sends)) [
    | inl e ↦ rw (e, send_message)
    | inr (_, e) ↦ rw (e, send_message) (sym (append-nil ac.bus.posted))
  ]

  -- An update with a known state is one message, if the bus takes it: an envelope of type
  -- updateservice, from which the service reads the address and the state. No error is returned,
  -- also where the bus has not taken the message.
  pub update_service_state-taken_if :
      (ac : BaseClient Text) (state sip : String)
      → is_service_state state ≡ true
      → ((update_service_state json fails ints ac state sip).0.bus.posted
          ≡ ac.bus.posted
            ++ taken_if
                (fails ac.bus.sends)
                ac.command_queue
                (print (encode_envelope (update_envelope (in_state sip state)))))
        × ((update_service_state json fails ints ac state sip).1 ≡ none)
        × (decode_text json fails (print (encode_envelope (update_envelope (in_state sip state))))
            ≡ some (update_envelope (in_state sip state)))
        × (read_service ints (marshal_service ints (in_state sip state))
            ≡ some (in_state sip state))
  unfolding update_service_state
  update_service_state-taken_if ac state sip known = (
    rw known (update_service_lem ac (in_state sip state)),
    rw known,
    decode_text_of json fails (update_envelope (in_state sip state)),
    read_service-marshal_service ints (in_state sip state) tt,
  )
