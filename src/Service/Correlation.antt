-- ===== src/Service/Correlation.antt =====
-- A call returns the reply to its own request, in every interleaving of calls and replies.
use i_drac_telemetry_referen.Common.{
  ℕ, ◌≡◌, refl, sym, ap, ◌⊎◌, inl, inr, Option, none, some, List, [], ◌∷◌, String, arith,
  Bool-cases,
}
use mathlib.Core.Option.{some-injective}
use i_drac_telemetry_referen.Common.Dict
use i_drac_telemetry_referen.Common.Dict.{Dict, get-put, get-remove}
use i_drac_telemetry_referen.Common.Text.{◌==◌, eq_iff}
use i_drac_telemetry_referen.Json.{JsonText}
use i_drac_telemetry_referen.Wire.{Envelope, Marshalled, Random, new_request}
use i_drac_telemetry_referen.Service.{
  Bus, BaseClient, new_base_client, CallResult, begin_call, receive_reply, finish_call, time_out,
  decode_text, send_envelope, forget, result_of, finished, init_reply_listener, after_init,
  with_request, registered, take_reply, into_channel,
}

module _ (json : JsonText) (fails : ℕ → Option String) where
  open json use {Text}

  -- The states of a client after any calls, replies, results, timeouts and sends, and the messages
  -- that its listener has read, the last one first.
  pub data Run (start : BaseClient Text) : List Text → BaseClient Text → Type 0 where
    fresh : Run start [] start
    begins :
        {ms : List Text} {bc bc' : BaseClient Text} (subscribed : Option String) (msg_type : String)
        (payload : Marshalled) (random : Random)
        → Run start ms bc
        → (begin_call json fails bc subscribed msg_type payload random).0 ≡ bc'
        → Run start ms bc'
    receives :
        {ms : List Text} {bc bc' : BaseClient Text} (message : Text)
        → Run start ms bc
        → receive_reply json fails bc message ≡ bc'
        → Run start (message ∷ ms) bc'
    finishes :
        {ms : List Text} {bc bc' : BaseClient Text} (id : String) (r : CallResult)
        → Run start ms bc
        → finish_call json fails bc id ≡ some (bc', r)
        → Run start ms bc'
    times_out :
        {ms : List Text} {bc bc' : BaseClient Text} (id : String)
        → Run start ms bc
        → (time_out json fails bc id).0 ≡ bc'
        → Run start ms bc'
    sends :
        {ms : List Text} {bc : BaseClient Text} (bus : Bus Text)
        → Run start ms bc
        → Run start ms (record bc { bus = bus })

  -- One of the messages is the text of the envelope.
  abbrev pub Heard : List Text → Envelope → Type 0
  Heard [] env = ⊥
  Heard (m ∷ ms) env = (decode_text json fails m ≡ some env) ⊎ Heard ms env

  -- A full channel holds an envelope that was read and has the id that the channel waits for.
  abbrev Correlates : List Text → Dict (Option Envelope) → Type 0
  Correlates ms pending =
      (k : String) (e : Envelope)
      → Dict.get pending k ≡ some (some e)
      → (e.correlation_id ≡ k) × Heard ms e

  module _ (ms : List Text) (p : Dict (Option Envelope)) (h : Correlates ms p) (id : String) where
    Correlates-put-none : Correlates ms (Dict.put p id none)
    Correlates-put-none k e g = elim (Bool-cases (id == k)) [
      | inl same ↦ absurd (ground (arith, get-put {V = Option Envelope} p id k none))
      | inr other ↦ h k e (ground (arith, get-put {V = Option Envelope} p id k none))
    ]

    Correlates-remove : Correlates ms (Dict.remove p id)
    Correlates-remove k e g = elim (Bool-cases (id == k)) [
      | inl same ↦ absurd (ground (arith, get-remove p id k))
      | inr other ↦ h k e (ground (arith, get-remove p id k))
    ]

  Correlates-put-some :
      (ms : List Text) (p : Dict (Option Envelope)) (env : Envelope)
      → Correlates ms p
      → Heard ms env
      → Correlates ms (Dict.put p env.correlation_id (some env))
  Correlates-put-some ms p env h heard k e g = elim (Bool-cases (env.correlation_id == k)) [
    | inl same ↦
        let taken : env ≡ e = ground (arith, get-put p env.correlation_id k (some env)) in
        rw (← taken) ((eq_iff env.correlation_id k).0 same, heard)
    | inr other ↦ h k e (ground (arith, get-put p env.correlation_id k (some env)))
  ]

  module _ (ms : List Text) where
    registered-Correlates :
        (bc : BaseClient Text) (id : String) (r : Bus Text × Option String)
        → Correlates ms bc.pending
        → Correlates ms (registered json fails bc id r).0.pending
    registered-Correlates bc id (bus, none) h = h
    registered-Correlates bc id (bus, some e) h = Correlates-remove ms bc.pending h id

    with_request-Correlates :
        (bc : BaseClient Text) (req : Option Envelope)
        → Correlates ms bc.pending
        → Correlates ms (with_request json fails bc req).0.pending
    with_request-Correlates bc none h = h
    with_request-Correlates bc (some req) h =
        registered-Correlates (record bc { pending = Dict.put bc.pending req.correlation_id none })
          req.correlation_id (send_envelope json fails bc.bus bc.command_queue req)
          (Correlates-put-none ms bc.pending h req.correlation_id)

    after_init-Correlates :
        (msg_type : String) (payload : Marshalled) (random : Random)
        (r : BaseClient Text × Option String)
        → Correlates ms r.0.pending
        → Correlates ms (after_init json fails msg_type payload random r).0.pending
    after_init-Correlates msg_type payload random (bc, some e) h = h
    after_init-Correlates msg_type payload random (bc, none) h =
        with_request-Correlates bc (new_request msg_type payload bc.reply_queue random) h

    init-pending :
        (bc : BaseClient Text) (subscribed : Option String)
        → (init_reply_listener json fails bc subscribed).0.pending ≡ bc.pending
    unfolding init_reply_listener
    init-pending bc subscribed = ground arith

    begin_call-Correlates :
        (bc : BaseClient Text) (subscribed : Option String) (msg_type : String)
        (payload : Marshalled) (random : Random)
        → Correlates ms bc.pending
        → Correlates ms (begin_call json fails bc subscribed msg_type payload random).0.pending
    unfolding begin_call
    begin_call-Correlates bc subscribed msg_type payload random h =
        after_init-Correlates msg_type payload random (init_reply_listener json fails bc subscribed)
          (rw (init-pending bc subscribed) h)

    into_channel-Correlates :
        (bc : BaseClient Text) (env : Envelope) (c : Option (Option Envelope))
        → Correlates ms bc.pending
        → Heard ms env
        → Correlates ms (into_channel json fails bc env c).pending
    into_channel-Correlates bc env none h heard = h
    into_channel-Correlates bc env (some (some e)) h heard = h
    into_channel-Correlates bc env (some none) h heard =
        Correlates-put-some ms bc.pending env h heard

  -- The envelope that a call has taken its result from, and the client that it leaves.
  record Took (ms : List Text) (bc bc' : BaseClient Text) (id : String) (r : CallResult)
      : Type 0 where
    reply : Envelope
    own_id : reply.correlation_id ≡ id
    its_result : r ≡ result_of json fails reply
    was_heard : Heard ms reply
    left : bc' ≡ forget json fails bc id

  finished-Took :
      (ms : List Text) (bc bc' : BaseClient Text) (id : String) (r : CallResult)
      (c : Option (Option Envelope))
      → Dict.get bc.pending id ≡ c
      → Correlates ms bc.pending
      → finished json fails bc id c ≡ some (bc', r)
      → Took ms bc bc' id r
  finished-Took ms bc bc' id r none g h e = cc
  finished-Took ms bc bc' id r (some none) g h e = cc
  finished-Took ms bc bc' id r (some (some env)) g h e = record {
    reply = env;
    own_id = (h id env g).0;
    its_result = ap (λ (p : BaseClient Text × CallResult). p.1) (sym (some-injective _ _ e));
    was_heard = (h id env g).1;
    left = ap (λ (p : BaseClient Text × CallResult). p.0) (sym (some-injective _ _ e));
  }

  finish_call-Took :
      (ms : List Text) (bc bc' : BaseClient Text) (id : String) (r : CallResult)
      → Correlates ms bc.pending
      → finish_call json fails bc id ≡ some (bc', r)
      → Took ms bc bc' id r
  unfolding finish_call
  finish_call-Took ms bc bc' id r h e =
      finished-Took ms bc bc' id r (Dict.get bc.pending id) refl h e

  take_reply-Correlates :
      (m : Text) (ms : List Text) (bc : BaseClient Text) (o : Option Envelope)
      → decode_text json fails m ≡ o
      → Correlates ms bc.pending
      → Correlates (m ∷ ms) (take_reply json fails bc o).pending
  take_reply-Correlates m ms bc none d h = λ k e g. ((h k e g).0, inr (h k e g).1)
  take_reply-Correlates m ms bc (some env) d h =
      into_channel-Correlates (m ∷ ms) bc env (Dict.get bc.pending env.correlation_id)
        (λ k e g. ((h k e g).0, inr (h k e g).1)) (inl d)

  receive_lem :
      (bc : BaseClient Text) (m : Text)
      → receive_reply json fails bc m ≡ take_reply json fails bc (decode_text json fails m)
  unfolding receive_reply
  receive_lem bc m = refl

  receive-Correlates :
      (m : Text) (ms : List Text) (bc : BaseClient Text)
      → Correlates ms bc.pending
      → Correlates (m ∷ ms) (receive_reply json fails bc m).pending
  receive-Correlates m ms bc h =
      rw (receive_lem bc m) (take_reply-Correlates m ms bc (decode_text json fails m) refl h)

  time_out_lem :
      (bc : BaseClient Text) (id : String) → (time_out json fails bc id).0 ≡ forget json fails bc id
  unfolding time_out
  time_out_lem bc id = refl

  no_pending : Correlates [] []
  unfolding Dict.get
  no_pending k e g = cc

  Run-Correlates :
      {start : BaseClient Text} {ms : List Text} {bc : BaseClient Text}
      → Correlates [] start.pending
      → Run start ms bc
      → Correlates ms bc.pending
  Run-Correlates h fresh = h
  Run-Correlates h (begins {ms} {bc} subscribed msg_type payload random run e) =
      rw (← e)
        (begin_call-Correlates ms bc subscribed msg_type payload random (Run-Correlates h run))
  Run-Correlates h (receives {ms} {bc} message run e) =
      rw (← e) (receive-Correlates message ms bc (Run-Correlates h run))
  Run-Correlates h (finishes {ms} {bc} {bc'} id r run e) =
      let before = Run-Correlates h run in
      rw (finish_call-Took ms bc bc' id r before e).left (Correlates-remove ms bc.pending before id)
  Run-Correlates h (times_out {ms} {bc} id run e) =
      rw (← e) (rw (time_out_lem bc id) (Correlates-remove ms bc.pending (Run-Correlates h run) id))
  Run-Correlates h (sends bus run) = Run-Correlates h run

  -- However calls, replies, timeouts and sends of a new client follow one another: a call that
  -- returns a reply's result returns that of an envelope with the call's own correlation id, which
  -- the listener has read.
  pub Run-finish_call :
      (bus : Bus Text) (command_queue reply_prefix client_name : String) {ms : List Text}
      (bc bc' : BaseClient Text) (id : String) (r : CallResult)
      → Run (new_base_client bus command_queue reply_prefix client_name) ms bc
      → finish_call json fails bc id ≡ some (bc', r)
      → (e : Envelope) × (e.correlation_id ≡ id) × (r ≡ result_of json fails e) × Heard ms e
  Run-finish_call bus command_queue reply_prefix client_name {ms} bc bc' id r run e =
      let took = finish_call-Took ms bc bc' id r (Run-Correlates no_pending run) e in
      (took.reply, took.own_id, took.its_result, took.was_heard)
