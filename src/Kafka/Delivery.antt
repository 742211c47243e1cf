-- ===== src/Kafka/Delivery.antt =====
-- When a message has reached a broker, for `SendMessage` and `SendMessageWithHeaders`.
use i_drac_telemetry_referen.Common.{
  ℕ, ◌+◌, ◌≤◌, ◌≡◌, ◌≢◌, refl, ◌∙◌, inl, inr, Option, none, some, [], ◌∷◌, ◌++◌, String, arith,
  Bytes, Bool-cases, Option-cases,
}
use i_drac_telemetry_referen.Common.Dict
use i_drac_telemetry_referen.Common.Dict.{get-put}
use i_drac_telemetry_referen.Common.Text.{eq_refl}
use i_drac_telemetry_referen.Kafka.Restart.{Error, should_restart_on_err, replace_slashes}
use i_drac_telemetry_referen.Kafka.{
  Dial, connected, dial_error, no_conn, Broker, Message, Bus, Outcome, returned, exited, Connect,
  conn, no_connection, topic_connect, write_message, drop_stale, retry, post, dialled, write_again,
  rewritten, send_message, after_write, on_connect,
}

-- A call that returns nil has had the message taken once, by the connection that is cached for its
-- topic, and any other end has had it taken by none.
abbrev pub Outcomes : Bus → Message → String → Bus → Outcome → Type 0
Outcomes bus m topic bus' (returned none) =
    (c : ℕ) × (bus'.sent ≡ bus.sent ++ (c, m) ∷ []) × (Dict.get bus'.conns topic ≡ some c)
Outcomes bus m topic bus' (returned (some e)) = bus'.sent ≡ bus.sent
Outcomes bus m topic bus' exited = bus'.sent ≡ bus.sent

-- `Outcomes`, with at most k more writes and l more dials.
abbrev pub Ends : Message → String → ℕ → ℕ → Bus → Bus × Outcome → Type 0
Ends m queue k l bus (bus', o) =
    Outcomes bus m (replace_slashes queue) bus' o
    × (bus'.writes ≤ bus.writes + k)
    × (bus'.dials ≤ bus.dials + l)

abbrev Connects : Bus → String → Bus × Connect → Type 0
Connects bus topic (bus', conn c) =
    (bus'.sent ≡ bus.sent)
    × (bus'.writes ≡ bus.writes)
    × (bus'.dials ≤ bus.dials + 1)
    × (Dict.get bus'.conns topic ≡ some c)
Connects bus topic (bus', no_connection e) =
    (bus'.sent ≡ bus.sent) × (bus'.writes ≡ bus.writes) × (bus'.dials ≤ bus.dials + 1) × (e ≢ none)

module _ (broker : Broker) (answers : (n : ℕ) → broker.dial n ≢ no_conn) where
  dialled-Connects :
      (bus : Bus) (topic : String) (d : Dial)
      → d ≢ no_conn
      → Connects bus topic (dialled broker bus topic d)
  dialled-Connects bus topic connected h =
      (refl, refl, omega arith, rw get-put (rw (eq_refl topic) refl))
  dialled-Connects bus topic (dial_error e) h = (refl, refl, omega arith, λ x. cc)
  dialled-Connects bus topic no_conn h = absurd (h refl)

  connect-Connects :
      (bus : Bus) (queue : String)
      → Connects bus (replace_slashes queue) (topic_connect broker bus queue)
  unfolding topic_connect
  connect-Connects bus queue = elim (Option-cases (Dict.get bus.conns (replace_slashes queue))) [
    | inl e ↦
        rw (e, topic_connect)
          (dialled-Connects bus (replace_slashes queue) (broker.dial bus.dials) (answers bus.dials))
    | inr (c, e) ↦ rw (e, topic_connect) (refl, refl, omega arith, e)
  ]

  abbrev Wrote : Bus → ℕ → Message → Bus × Option Error → Type 0
  Wrote bus c m (bus', none) =
      (bus'.sent ≡ bus.sent ++ (c, m) ∷ [])
      × (bus'.conns ≡ bus.conns)
      × (bus'.writes ≡ bus.writes + 1)
      × (bus'.dials ≡ bus.dials)
  Wrote bus c m (bus', some e) =
      (bus'.sent ≡ bus.sent)
      × (bus'.conns ≡ bus.conns)
      × (bus'.writes ≡ bus.writes + 1)
      × (bus'.dials ≡ bus.dials)

  write-Wrote : (bus : Bus) (c : ℕ) (m : Message) → Wrote bus c m (write_message broker bus c m)
  unfolding write_message
  write-Wrote bus c m = elim (Option-cases (broker.write bus.writes)) [
    | inl e ↦ rw (e, write_message) (refl, refl, omega arith, refl)
    | inr (x, e) ↦ rw (e, write_message) (refl, refl, omega arith, refl)
  ]

  record Untouched (bus bus' : Bus) : Type 0 where
    sent : bus'.sent ≡ bus.sent
    writes : bus'.writes ≡ bus.writes
    dials : bus'.dials ≡ bus.dials

  drop_stale-Untouched : (bus : Bus) (topic : String) → Untouched bus (drop_stale broker bus topic)
  unfolding drop_stale
  drop_stale-Untouched bus topic = elim (Option-cases (Dict.get bus.conns topic)) [
    | inl e ↦ rw (e, drop_stale) (record { sent = refl; writes = refl; dials = refl })
    | inr (c, e) ↦ rw (e, drop_stale) (record { sent = refl; writes = refl; dials = refl })
  ]

  module _ (m : Message) (queue : String) where
    -- A call that goes on from a state in which nothing more has been sent.
    Ends-after :
        (k l k' l' : ℕ) (bus bus' : Bus) (r : Bus × Outcome)
        → bus'.sent ≡ bus.sent
        → bus'.writes ≤ bus.writes + k
        → bus'.dials ≤ bus.dials + l
        → Ends m queue k' l' bus' r
        → Ends m queue (k + k') (l + l') bus r
    Ends-after k l k' l' bus bus' (t, returned none) e w d h =
        ((h.0.0, h.0.1 ∙ rw e, h.0.2), omega arith, omega arith)
    Ends-after k l k' l' bus bus' (t, returned (some x)) e w d h =
        (h.0 ∙ e, omega arith, omega arith)
    Ends-after k l k' l' bus bus' (t, exited) e w d h = (h.0 ∙ e, omega arith, omega arith)

    rewritten-Ends :
        (bus : Bus) (c : ℕ) (r : Bus × Option Error)
        → Dict.get bus.conns (replace_slashes queue) ≡ some c
        → Wrote bus c m r
        → Ends m queue 1 0 bus (rewritten broker r)
    rewritten-Ends bus c (bus', none) g w = ((c, w.0, rw (w.1) g), omega arith, omega arith)
    rewritten-Ends bus c (bus', some e) g w = (w.0, omega arith, omega arith)

    write_again-Ends :
        (bus : Bus) (r : Bus × Connect)
        → Connects bus (replace_slashes queue) r
        → Ends m queue 1 1 bus (write_again broker m r)
    write_again-Ends bus (bus', no_connection e) h = (h.0, omega arith, omega arith)
    write_again-Ends bus (bus', conn c) h =
        Ends-after 0 1 1 0 bus bus' (write_again broker m (bus', conn c)) h.0 (omega arith) h.2
          (rewritten-Ends bus' c (write_message broker bus' c m) h.3 (write-Wrote bus' c m))

    retry-Ends : (bus : Bus) → Ends m queue 1 1 bus (retry broker bus queue m)
    unfolding retry
    retry-Ends bus =
        let stale = drop_stale broker bus (replace_slashes queue) in
        let u = drop_stale-Untouched bus (replace_slashes queue) in
        Ends-after 0 0 1 1 bus stale (write_again broker m (topic_connect broker stale queue))
          u.sent (omega (arith, u.writes)) (omega (arith, u.dials))
          (write_again-Ends stale (topic_connect broker stale queue) (connect-Connects stale queue))

    after_write-Ends :
        (bus : Bus) (c : ℕ) (r : Bus × Option Error)
        → Dict.get bus.conns (replace_slashes queue) ≡ some c
        → Wrote bus c m r
        → Ends m queue 2 1 bus (after_write broker queue m r)
    after_write-Ends bus c (bus', none) g w = ((c, w.0, rw (w.1) g), omega arith, omega arith)
    after_write-Ends bus c (bus', some e) g w = elim (Bool-cases (should_restart_on_err (some e))) [
      | inl x ↦ rw x (
          Ends-after 1 0 1 1 bus bus' (retry broker bus' queue m) w.0 (omega arith) (omega arith)
            (retry-Ends bus'))
      | inr x ↦ rw x (w.0, omega arith, omega arith)
    ]

    on_connect-Ends :
        (bus : Bus) (r : Bus × Connect)
        → Connects bus (replace_slashes queue) r
        → Ends m queue 2 2 bus (on_connect broker queue m r)
    on_connect-Ends bus (bus', no_connection none) h = absurd (h.3 refl)
    on_connect-Ends bus (bus', no_connection (some e)) h = (h.0, omega arith, omega arith)
    on_connect-Ends bus (bus', conn c) h =
        Ends-after 0 1 2 1 bus bus' (on_connect broker queue m (bus', conn c)) h.0 (omega arith) h.2
          (after_write-Ends bus' c (write_message broker bus' c m) h.3 (write-Wrote bus' c m))

    post-Ends : (bus : Bus) → Ends m queue 2 2 bus (post broker bus m queue)
    post-Ends bus =
        on_connect-Ends bus (topic_connect broker bus queue) (connect-Connects bus queue)

  -- With a dial that returns a connection or an error: if `SendMessage` returns nil, the message has
  -- been taken once, by the connection that is then cached for the queue's topic; if it returns an
  -- error or exits, no connection has taken it. It writes at most twice and dials at most twice.
  pub send_message-Ends :
      (bus : Bus) (message : Bytes) (queue : String)
      → Ends
          (record { value = message; headers = [] })
          queue
          2
          2
          bus
          (send_message broker bus message queue)
  unfolding send_message
  send_message-Ends bus message queue =
      post-Ends (record { value = message; headers = [] }) queue bus
