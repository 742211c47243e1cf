-- ===== src/Databus/Receivers.antt =====
-- Which queues receive data groups.
use i_drac_telemetry_referen.Common.{
  ℕ, Bool, false, ◌≡◌, refl, ◌||◌, ◌&&◌, not, inl, inr, Option, none, some, List, [], ◌∷◌, ◌++◌,
  String, arith, Bool-cases, Option-cases,
}
use i_drac_telemetry_referen.Common.Text.{◌==◌, eq_iff}
use i_drac_telemetry_referen.Json.{JsonText}
use i_drac_telemetry_referen.Wire.{Envelope}
use i_drac_telemetry_referen.Service.{decode_text, listen_to_queue}
use i_drac_telemetry_referen.Databus.{
  contains, handle_envelope, handle_subscribe_envelope, receive_envelopes,
}

-- No queue twice
abbrev pub Distinct : List String → Type 0
Distinct [] = Unit
Distinct (r ∷ rs) = (contains rs r ≡ false) × Distinct rs

contains-append :
    (rs ss : List String) (q : String) → contains (rs ++ ss) q ≡ (contains rs q || contains ss q)
contains-append [] ss q = refl
contains-append (r ∷ rs) ss q = ground (arith, contains-append rs ss q)

Distinct-snoc :
    (rs : List String) (q : String) → Distinct rs → contains rs q ≡ false → Distinct (rs ++ q ∷ [])
Distinct-snoc [] q d new = (refl, tt)
Distinct-snoc (r ∷ rs) q d new = (
  ground (arith, contains-append rs (q ∷ []) r, d.0, eq_iff q r, eq_iff r q),
  Distinct-snoc rs q d.1 (ground arith),
)

-- The queues that the envelope subscribes
abbrev pub asks : Envelope → String → Bool
asks env q = env.type == "subscribe" && (env.reply_to == q && not (q == ""))

pub contains-handle_envelope :
    (rs : List String) (env : Envelope) (q : String)
    → contains (handle_envelope rs env) q ≡ (contains rs q || asks env q)
unfolding handle_envelope handle_subscribe_envelope
contains-handle_envelope rs env q = ground (
  arith,
  contains-append rs (env.reply_to ∷ []) q,
  eq_iff env.reply_to q,
  eq_iff env.reply_to "",
  eq_iff q "",
)

Distinct-handle_envelope :
    (rs : List String) (env : Envelope) → Distinct rs → Distinct (handle_envelope rs env)
unfolding handle_envelope handle_subscribe_envelope
Distinct-handle_envelope rs env d = elim (Bool-cases (env.type == "subscribe")) [
  | inr other ↦ rw other d
  | inl same ↦ elim (Bool-cases (env.reply_to == "")) [
    | inl empty ↦ rw (same, empty) d
    | inr named ↦ elim (Bool-cases (contains rs env.reply_to)) [
      | inl known ↦ rw (same, named, known) d
      | inr new ↦ rw (same, named, new) (Distinct-snoc rs env.reply_to d new)
    ]
  ]
]

module _ (json : JsonText) (fails : ℕ → Option String) where
  open json use {Text}

  -- One of the messages is the text of an envelope that subscribes the queue.
  abbrev pub asked_by : Option Envelope → String → Bool
  asked_by none q = false
  asked_by (some env) q = asks env q

  abbrev pub subscribes : List Text → String → Bool
  subscribes [] q = false
  subscribes (m ∷ ms) q = asked_by (decode_text json fails m) q || subscribes ms q

  -- The receivers after the first message, before the others are read.
  abbrev after_first : List String → Option Envelope → List String
  after_first rs none = rs
  after_first rs (some env) = handle_envelope rs env

  listen_first :
      (rs : List String) (m : Text) (ms : List Text)
      → (listen_to_queue json fails handle_envelope rs (m ∷ ms)).0
        ≡ (listen_to_queue json fails handle_envelope
            (after_first rs (decode_text json fails m))
            ms).0
  unfolding listen_to_queue
  listen_first rs m ms = elim (Option-cases (decode_text json fails m)) [
    | inl e ↦ rw (e, listen_to_queue)
    | inr (env, e) ↦ rw (e, listen_to_queue)
  ]

  contains-after_first :
      (rs : List String) (o : Option Envelope) (q : String)
      → contains (after_first rs o) q ≡ (contains rs q || asked_by o q)
  contains-after_first rs none q = ground arith
  contains-after_first rs (some env) q = contains-handle_envelope rs env q

  Distinct-after_first :
      (rs : List String) (o : Option Envelope) → Distinct rs → Distinct (after_first rs o)
  Distinct-after_first rs none d = d
  Distinct-after_first rs (some env) d = Distinct-handle_envelope rs env d

  contains-listen :
      (rs : List String) (ms : List Text) (q : String)
      → contains (listen_to_queue json fails handle_envelope rs ms).0 q
        ≡ (contains rs q || subscribes ms q)
  unfolding listen_to_queue
  contains-listen rs [] q = ground arith
  contains-listen rs (m ∷ ms) q = rw (listen_first rs m ms) (
      ground (
        arith,
        contains-listen (after_first rs (decode_text json fails m)) ms q,
        contains-after_first rs (decode_text json fails m) q,
      ))

  Distinct-listen :
      (rs : List String) (ms : List Text)
      → Distinct rs
      → Distinct (listen_to_queue json fails handle_envelope rs ms).0
  unfolding listen_to_queue
  Distinct-listen rs [] d = d
  Distinct-listen rs (m ∷ ms) d = rw (listen_first rs m ms) (
      Distinct-listen (after_first rs (decode_text json fails m)) ms
        (Distinct-after_first rs (decode_text json fails m) d))

  -- Whatever messages the command queue brings to a new service, no receiver stands twice in its
  -- list, and a queue stands there exactly when it is not empty and a message that can be decoded
  -- subscribes it.
  pub receive_envelopes-Distinct :
      (ms : List Text)
      → Distinct (receive_envelopes json fails [] ms).0
        × ((q : String) → contains (receive_envelopes json fails [] ms).0 q ≡ subscribes ms q)
  unfolding receive_envelopes
  receive_envelopes-Distinct ms = (Distinct-listen [] ms tt, λ q. contains-listen [] ms q)
