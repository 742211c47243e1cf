-- ===== src/Kafka.antt =====
-- internal/messagebus/kafka/kafka.go: the Kafka message bus and its cache of connections.
-- The broker is a parameter: `dial n` is the outcome of the n-th `DialLeader` and `write n` that of
-- the n-th `WriteMessages`; a connection that a dial returns is named by the dial's number, so each
-- dial returns a new one. `sent` and `shut` are the messages that a broker took and the connections
-- that were closed, in order. `os.Exit(1)` is the outcome `exited`.
pub mod Restart
pub mod Delivery
pub mod Cache
use i_drac_telemetry_referen.Common.{
  ℕ, zero, suc, ◌+◌, Bool, true, false, Option, none, some, List, [], ◌∷◌, ◌++◌, String,
  if◌then◌else◌, Bytes,
}
use i_drac_telemetry_referen.Common.Dict
use i_drac_telemetry_referen.Common.Dict.{Dict}
use Restart.{Error, should_restart_on_err, replace_slashes}

-- What a dial returns: a connection, an error, or neither.
pub data Dial : Type 0 where
  connected : Dial
  dial_error : Error → Dial
  no_conn : Dial

pub record Broker : Type 0 where
  pub dial : ℕ → Dial
  pub write : ℕ → Option Error
  -- `conn.Close()` by connection
  pub close_conn : ℕ → Option Error

pub record Message : Type 0 where
  pub value : Bytes
  pub headers : List (String × Bytes)

pub record Bus : Type 0 where
  pub conns : Dict ℕ
  pub dials : ℕ
  pub writes : ℕ
  pub sent : List (ℕ × Message)
  pub shut : List ℕ

abbrev pub new_bus : Bus
new_bus = record { conns = []; dials = 0; writes = 0; sent = []; shut = [] }

pub data Outcome : Type 0 where
  returned : Option Error → Outcome
  exited : Outcome

-- The connection that `TopicConnect` returns, or its error, which may be nil as the connection.
pub data Connect : Type 0 where
  conn : ℕ → Connect
  no_connection : Option Error → Connect

module _ (broker : Broker) where
  abbrev dialled : Bus → String → Dial → Bus × Connect
  dialled bus topic connected = (
    record bus { conns = Dict.put bus.conns topic bus.dials; dials = suc bus.dials },
    conn bus.dials,
  )
  dialled bus topic (dial_error e) = (record bus { dials = suc bus.dials }, no_connection (some e))
  dialled bus topic no_conn = (record bus { dials = suc bus.dials }, no_connection none)

  -- `TopicConnect`
  unfoldable pub topic_connect : Bus → String → Bus × Connect
  topic_connect bus queue =
      let topic = replace_slashes queue in
      elim (Dict.get bus.conns topic) [
        | some c ↦ (bus, conn c)
        | none ↦ dialled bus topic (broker.dial bus.dials)
      ]

  -- `kconn.WriteMessages(message)`
  unfoldable pub write_message : Bus → ℕ → Message → Bus × Option Error
  write_message bus c message = elim (broker.write bus.writes) [
    | none ↦ (record bus { writes = suc bus.writes; sent = bus.sent ++ (c, message) ∷ [] }, none)
    | some e ↦ (record bus { writes = suc bus.writes }, some e)
  ]

  -- The stale connection is closed and leaves the cache.
  unfoldable pub drop_stale : Bus → String → Bus
  drop_stale bus topic = elim (Dict.get bus.conns topic) [
    | none ↦ bus
    | some c ↦ record bus { conns = Dict.remove bus.conns topic; shut = bus.shut ++ c ∷ [] }
  ]

  abbrev rewritten : Bus × Option Error → Bus × Outcome
  rewritten (bus, none) = (bus, returned none)
  rewritten (bus, some e) = (bus, exited)

  abbrev write_again : Message → Bus × Connect → Bus × Outcome
  write_again message (bus, conn c) = rewritten (write_message bus c message)
  write_again message (bus, no_connection e) = (bus, exited)

  -- The only retry, over a new connection.
  unfoldable pub retry : Bus → String → Message → Bus × Outcome
  unfolding write_message topic_connect drop_stale
  retry bus queue message =
      write_again message (topic_connect (drop_stale bus (replace_slashes queue)) queue)

  abbrev after_write : String → Message → Bus × Option Error → Bus × Outcome
  after_write queue message (bus, none) = (bus, returned none)
  after_write queue message (bus, some e) =
      if should_restart_on_err (some e) then retry bus queue message else (bus, returned (some e))

  abbrev on_connect : String → Message → Bus × Connect → Bus × Outcome
  on_connect queue message (bus, no_connection e) = (bus, returned e)
  on_connect queue message (bus, conn c) = after_write queue message (write_message bus c message)

  abbrev post : Bus → Message → String → Bus × Outcome
  post bus message queue = on_connect queue message (topic_connect bus queue)

  -- `SendMessage`
  unfoldable pub send_message : Bus → Bytes → String → Bus × Outcome
  unfolding topic_connect write_message retry
  send_message bus message queue = post bus (record { value = message; headers = [] }) queue

  -- `SendMessageWithHeaders`, with the headers in the order in which the map is gone through.
  unfoldable pub send_message_with_headers :
      Bus → Bytes → String → List (String × Bytes) → Bus × Outcome
  unfolding topic_connect write_message retry
  send_message_with_headers bus message queue headers =
      post bus (record { value = message; headers = headers }) queue

  -- The error of the last connection that fails to close.
  unfoldable pub last_error : Option Error → Dict ℕ → Option Error
  last_error e [] = e
  last_error e ((topic, c) ∷ rest) =
      last_error (elim (broker.close_conn c) [ some x ↦ some x | none ↦ e ]) rest

  abbrev handles : Dict ℕ → List ℕ
  handles [] = []
  handles ((topic, c) ∷ rest) = c ∷ handles rest

  -- `Close`: the loop over the map, which deletes each topic.
  unfoldable pub close : Bus → Bus × Option Error
  unfolding last_error
  close bus =
      (record bus { conns = []; shut = bus.shut ++ handles bus.conns }, last_error none bus.conns)
