-- ===== src/Databus/FanOut.antt =====
-- The sending of a group to every queue.
use i_drac_telemetry_referen.Common.{
  ℕ, suc, ◌+◌, ◌≡◌, refl, sym, ap, ◌∙◌, inl, inr, Option, none, some, List, [], ◌∷◌, ◌++◌, String,
  arith, length, Option-cases, append_assoc, append-nil,
}
use i_drac_telemetry_referen.Json.{JsonText}
use i_drac_telemetry_referen.Wire.{Envelope, empty_envelope, encode_envelope, new_envelope}
use i_drac_telemetry_referen.Service.{Bus, send_to, send_message, send_envelope, decode_text}
use i_drac_telemetry_referen.Service.Calls.{decode_text_of}
use i_drac_telemetry_referen.Databus.{send_group, send_group_to_queue}
use i_drac_telemetry_referen.Databus.Group.{DataGroup, marshal_group}

abbrev pub group_envelope : DataGroup → Envelope
group_envelope group = record empty_envelope {
  type = "datagroup";
  payload = some (marshal_group group);
}

module _ (json : JsonText) (fails : ℕ → Option String) where
  open json use {Text, print}

  abbrev posted_if : Option String → String → Text → List (String × Text)
  posted_if none queue text = (queue, text) ∷ []
  posted_if (some e) queue text = []

  -- The queues whose sends succeed, when the first of them is the n-th send of the bus, each with
  -- the message.
  abbrev pub reached : ℕ → List String → Text → List (String × Text)
  reached n [] text = []
  reached n (queue ∷ rest) text = posted_if (fails n) queue text ++ reached (suc n) rest text

  abbrev group_text : DataGroup → Text
  group_text group = print (encode_envelope (group_envelope group))

  abbrev after_send : Bus Text → String → Text → Option String → Bus Text
  after_send bus queue text none = record {
    posted = bus.posted ++ (queue, text) ∷ [];
    sends = suc bus.sends;
  }
  after_send bus queue text (some e) = record bus { sends = suc bus.sends }

  send_group_to_queue_lem :
      (bus : Bus Text) (group : DataGroup) (queue : String)
      → (send_group_to_queue json fails bus group queue).0
        ≡ after_send bus queue (group_text group) (fails bus.sends)
  unfolding send_group_to_queue send_to send_envelope send_message new_envelope
  send_group_to_queue_lem bus group queue = elim (Option-cases (fails bus.sends)) [
    | inl e ↦ rw (e, send_message)
    | inr (_, e) ↦ rw (e, send_message)
  ]

  abbrev sent : Bus Text → List String → Text → Bus Text
  sent bus receivers text = record {
    posted = bus.posted ++ reached bus.sends receivers text;
    sends = bus.sends + length receivers;
  }

  bus_eq :
      {p p' : List (String × Text)} {n n' : ℕ}
      → p ≡ p'
      → n ≡ n'
      → ◌≡◌ {A = Bus Text} (record { posted = p; sends = n }) (record { posted = p'; sends = n' })
  bus_eq e f = rw (e, f)

  sent-after_send :
      (bus : Bus Text) (queue : String) (rest : List String) (text : Text) (o : Option String)
      → sent (after_send bus queue text o) rest text ≡ record {
        posted = bus.posted ++ (posted_if o queue text ++ reached (suc bus.sends) rest text);
        sends = bus.sends + length (queue ∷ rest);
      }
  sent-after_send bus queue rest text none =
      bus_eq (append_assoc bus.posted ((queue, text) ∷ []) (reached (suc bus.sends) rest text))
        (omega arith)
  sent-after_send bus queue rest text (some e) = bus_eq refl (omega arith)

  send_group_sent :
      (bus : Bus Text) (receivers : List String) (group : DataGroup)
      → send_group json fails bus receivers group ≡ sent bus receivers (group_text group)
  unfolding send_group
  send_group_sent bus [] group = bus_eq (sym (append-nil bus.posted)) (omega arith)
  send_group_sent bus (queue ∷ rest) group =
      ap (λ b. send_group json fails b rest group) (send_group_to_queue_lem bus group queue)
      ∙ send_group_sent (after_send bus queue (group_text group) (fails bus.sends)) rest group
      ∙ sent-after_send bus queue rest (group_text group) (fails bus.sends)

  -- A group goes to every receiver whose send the bus takes, in order, and a failed send does not
  -- keep it from the later ones. The message is read back as an envelope of type datagroup with
  -- the document of the group.
  pub send_group-reached :
      (bus : Bus Text) (receivers : List String) (group : DataGroup)
      → ((send_group json fails bus receivers group).posted
          ≡ bus.posted
            ++ reached bus.sends receivers (print (encode_envelope (group_envelope group))))
        × (decode_text json fails (print (encode_envelope (group_envelope group)))
            ≡ some (group_envelope group))
  send_group-reached bus receivers group = (
    ap (λ b. b.posted) (send_group_sent bus receivers group),
    decode_text_of json fails (group_envelope group),
  )
