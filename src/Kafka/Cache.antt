-- ===== src/Kafka/Cache.antt =====
-- The cache of connections: what it holds is open, and no two topics share a connection.
use i_drac_telemetry_referen.Common.{
  ℕ, suc, ◌<◌, ◌≡◌, ◌≢◌, sym, ◌∙◌, inl, inr, Option, none, some, List, [], ◌∷◌, ◌++◌, String, arith,
  Bytes, Bool-cases, Option-cases, ◌⊎◌, All, All-append,
}
use i_drac_telemetry_referen.Common.Dict
use i_drac_telemetry_referen.Common.Dict.{get-put, get-remove}
use i_drac_telemetry_referen.Common.Text.{◌==◌, eq_iff}
use i_drac_telemetry_referen.Kafka.Restart.{Error, should_restart_on_err, replace_slashes}
use i_drac_telemetry_referen.Kafka.{
  Dial, connected, dial_error, no_conn, Broker, Message, Bus, Connect, send_message_with_headers,
  conn, no_connection, topic_connect, write_message, drop_stale, retry, dialled, write_again,
  rewritten, after_write, on_connect,
}

pub record IsLive (bus : Bus) : Type 0 where
  -- A cached connection has been dialled, and not closed.
  pub dialled_before : (t : String) (c : ℕ) → Dict.get bus.conns t ≡ some c → c < bus.dials
  pub not_shut : (t : String) (c : ℕ) → Dict.get bus.conns t ≡ some c → All (λ d. d ≢ c) bus.shut
  pub apart :
      (t u : String) (c : ℕ) → Dict.get bus.conns t ≡ some c → Dict.get bus.conns u ≡ some c → t ≡ u
  pub shut_before : All (λ d. d < bus.dials) bus.shut

All-later : (n : ℕ) (l : List ℕ) → All (λ d. d < n) l → All (λ d. d < suc n) l
All-later n [] h = tt
All-later n (d ∷ l) h = (omega arith, All-later n l h.1)

All-ne : (n : ℕ) (l : List ℕ) → All (λ d. d < n) l → All (λ d. d ≢ n) l
All-ne n [] h = tt
All-ne n (d ∷ l) h = (omega arith, All-ne n l h.1)

-- One more dial with nothing new in the cache.
dialled_in_vain : (bus : Bus) → IsLive bus → IsLive (record bus { dials = suc bus.dials })
dialled_in_vain bus h = record {
  dialled_before = λ t c e. omega (arith, h.dialled_before t c e);
  not_shut = h.not_shut;
  apart = h.apart;
  shut_before = All-later bus.dials bus.shut h.shut_before;
}

module _ (bus : Bus) (h : IsLive bus) (topic : String) where
  abbrev with_new : Bus
  with_new = record bus { conns = Dict.put bus.conns topic bus.dials; dials = suc bus.dials }

  new_or_old :
      (t : String) (c : ℕ)
      → Dict.get with_new.conns t ≡ some c
      → ((topic ≡ t) × (c ≡ bus.dials)) ⊎ ((topic ≢ t) × (Dict.get bus.conns t ≡ some c))
  new_or_old t c e = elim (Bool-cases (topic == t)) [
    | inl same ↦ inl ((eq_iff topic t).0 same, ground (arith, get-put bus.conns topic t bus.dials))
    | inr other ↦
        inr (
          λ x. cc (other, (eq_iff topic t).1 x),
          ground (arith, get-put bus.conns topic t bus.dials),
        )
  ]

  with_new-IsLive : IsLive with_new
  with_new-IsLive = record {
    dialled_before = λ t c e. elim (new_or_old t c e) [
      | inl n ↦ omega (arith, n.1)
      | inr o ↦ omega (arith, h.dialled_before t c o.1)
    ];
    not_shut = λ t c e. elim (new_or_old t c e) [
      | inl n ↦ rw (n.1) (All-ne bus.dials bus.shut h.shut_before)
      | inr o ↦ h.not_shut t c o.1
    ];
    apart = λ t u c e f. elim (new_or_old t c e) [
      | inl n ↦ elim (new_or_old u c f) [
        | inl m ↦ sym n.0 ∙ m.0
        | inr p ↦ absurd (omega (arith, n.1, h.dialled_before u c p.1))
      ]
      | inr o ↦ elim (new_or_old u c f) [
        | inl m ↦ absurd (omega (arith, m.1, h.dialled_before t c o.1))
        | inr p ↦ h.apart t u c o.1 p.1
      ]
    ];
    shut_before = All-later bus.dials bus.shut h.shut_before;
  }

  without : ℕ → Bus
  without c = record bus { conns = Dict.remove bus.conns topic; shut = bus.shut ++ c ∷ [] }

  still_there :
      (t : String) (c : ℕ)
      → Dict.get (Dict.remove bus.conns topic) t ≡ some c
      → (topic ≢ t) × (Dict.get bus.conns t ≡ some c)
  still_there t c e = elim (Bool-cases (topic == t)) [
    | inl same ↦ absurd (ground (arith, get-remove bus.conns topic t))
    | inr other ↦
        (λ x. cc (other, (eq_iff topic t).1 x), ground (arith, get-remove bus.conns topic t))
  ]

  without-IsLive : (c : ℕ) → Dict.get bus.conns topic ≡ some c → IsLive (without c)
  unfolding without
  without-IsLive c g = record {
    dialled_before = λ t d e. h.dialled_before t d (still_there t d e).1;
    not_shut = λ t d e.
        let o = still_there t d e in
        All-append (λ x. x ≢ d) bus.shut (c ∷ []) (h.not_shut t d o.1)
          (λ x. o.0 (h.apart topic t d (g ∙ rw x) o.1), tt);
    apart = λ t u d e f. h.apart t u d (still_there t d e).1 (still_there u d f).1;
    shut_before =
        All-append (λ d. d < bus.dials) bus.shut (c ∷ []) h.shut_before
          (h.dialled_before topic c g, tt);
  }

module _ (broker : Broker) where
  dialled-IsLive :
      (bus : Bus) (topic : String) (d : Dial) → IsLive bus → IsLive (dialled broker bus topic d).0
  dialled-IsLive bus topic connected h = with_new-IsLive bus h topic
  dialled-IsLive bus topic (dial_error e) h = dialled_in_vain bus h
  dialled-IsLive bus topic no_conn h = dialled_in_vain bus h

  connect-IsLive :
      (bus : Bus) (queue : String) → IsLive bus → IsLive (topic_connect broker bus queue).0
  unfolding topic_connect
  connect-IsLive bus queue h = elim (Option-cases (Dict.get bus.conns (replace_slashes queue))) [
    | inl e ↦
        rw (e, topic_connect) (dialled-IsLive bus (replace_slashes queue) (broker.dial bus.dials) h)
    | inr (c, e) ↦ rw (e, topic_connect) h
  ]

  write-IsLive :
      (bus : Bus) (c : ℕ) (m : Message) → IsLive bus → IsLive (write_message broker bus c m).0
  unfolding write_message
  write-IsLive bus c m h = elim (Option-cases (broker.write bus.writes)) [
    | inl e ↦
        rw (e, write_message)
          (record {
            dialled_before = h.dialled_before;
            not_shut = h.not_shut;
            apart = h.apart;
            shut_before = h.shut_before;
          })
    | inr (x, e) ↦
        rw (e, write_message)
          (record {
            dialled_before = h.dialled_before;
            not_shut = h.not_shut;
            apart = h.apart;
            shut_before = h.shut_before;
          })
  ]

  drop_stale-IsLive :
      (bus : Bus) (topic : String) → IsLive bus → IsLive (drop_stale broker bus topic)
  unfolding drop_stale
  drop_stale-IsLive bus topic h = elim (Option-cases (Dict.get bus.conns topic)) [
    | inl e ↦ rw (e, drop_stale) h
    | inr (c, e) ↦ rw (e, drop_stale) (unfold without in without-IsLive bus h topic c e)
  ]

  rewritten-IsLive : (r : Bus × Option Error) → IsLive r.0 → IsLive (rewritten broker r).0
  rewritten-IsLive (bus, none) h = h
  rewritten-IsLive (bus, some e) h = h

  module _ (m : Message) (queue : String) where
    write_again-IsLive : (r : Bus × Connect) → IsLive r.0 → IsLive (write_again broker m r).0
    write_again-IsLive (bus, no_connection e) h = h
    write_again-IsLive (bus, conn c) h =
        rewritten-IsLive (write_message broker bus c m) (write-IsLive bus c m h)

    retry-IsLive : (bus : Bus) → IsLive bus → IsLive (retry broker bus queue m).0
    unfolding retry
    retry-IsLive bus h =
        write_again-IsLive _
          (connect-IsLive _ queue (drop_stale-IsLive bus (replace_slashes queue) h))

    after_write-IsLive :
        (r : Bus × Option Error) → IsLive r.0 → IsLive (after_write broker queue m r).0
    after_write-IsLive (bus, none) h = h
    after_write-IsLive (bus, some e) h = elim (Bool-cases (should_restart_on_err (some e))) [
      | inl x ↦ rw x (retry-IsLive bus h)
      | inr x ↦ rw x h
    ]

    on_connect-IsLive : (r : Bus × Connect) → IsLive r.0 → IsLive (on_connect broker queue m r).0
    on_connect-IsLive (bus, no_connection e) h = h
    on_connect-IsLive (bus, conn c) h =
        after_write-IsLive (write_message broker bus c m) (write-IsLive bus c m h)

  -- Sending a message keeps every cached connection open, and those of different topics different,
  -- however the dials and the writes turn out.
  pub send_message_with_headers-IsLive :
      (bus : Bus) (message : Bytes) (queue : String) (headers : List (String × Bytes))
      → IsLive bus
      → IsLive (send_message_with_headers broker bus message queue headers).0
  unfolding send_message_with_headers
  send_message_with_headers-IsLive bus message queue headers h =
      on_connect-IsLive (record { value = message; headers = headers }) queue
        (topic_connect broker bus queue) (connect-IsLive bus queue h)
