-- ===== src/Tests/Kafka.antt =====
-- internal/messagebus/kafka: runs of the bus, and instances of the theorems.
use i_drac_telemetry_referen.Common.{
  ℕ, zero, suc, ◌≡◌, ◌≢◌, refl, [], ◌∷◌, some, none, true, Option,
}
use i_drac_telemetry_referen.Common.Ascii.{to_lower, contains, lower}
use i_drac_telemetry_referen.Common.Dict
use i_drac_telemetry_referen.Common.Text.{codes}
use i_drac_telemetry_referen.Kafka.{
  connected, no_conn, Broker, new_bus, send_message, send_message_with_headers, returned,
}
use i_drac_telemetry_referen.Kafka.Cache.{IsLive, send_message_with_headers-IsLive}
use i_drac_telemetry_referen.Kafka.Delivery.{Ends, send_message-Ends}
use i_drac_telemetry_referen.Kafka.Restart.{
  Error, eof, other, should_restart_on_err, replace_slashes,
}

-- The first write fails with EOF, and the later ones succeed.
abbrev first_fails : ℕ → Option Error
first_fails zero = some eof
first_fails (suc n) = none

abbrev broker : Broker
broker = record { dial = λ n. connected; write = first_fails; close_conn = λ c. none }

topic : replace_slashes "/queue/a" ≡ "_queue_a"
unfolding replace_slashes
topic = refl

restarts : should_restart_on_err (some (other (codes "write: Broken Pipe"))) ≡ true
unfolding should_restart_on_err to_lower lower contains
restarts = refl

-- The message goes over the second connection, and the first is closed.
resent : send_message broker new_bus (codes "m") "/a" ≡ (
  record {
    conns = ("_a", 1) ∷ [];
    dials = 2;
    writes = 2;
    sent = (1, record { value = codes "m"; headers = [] }) ∷ [];
    shut = 0 ∷ [];
  },
  returned none,
)
unfolding send_message should_restart_on_err replace_slashes Dict.get Dict.put Dict.remove
resent = refl

dials_answer : (n : ℕ) → broker.dial n ≢ no_conn
dials_answer n e = cc

send_message-Ends_example :
    Ends
      (record { value = codes "m"; headers = [] })
      "/a"
      2
      2
      new_bus
      (send_message broker new_bus (codes "m") "/a")
send_message-Ends_example = send_message-Ends broker dials_answer new_bus (codes "m") "/a"

IsLive-new_bus : IsLive new_bus
unfolding Dict.get
IsLive-new_bus = record {
  dialled_before = λ t c e. cc;
  not_shut = λ t c e. tt;
  apart = λ t u c e f. cc;
  shut_before = tt;
}

send_message_with_headers-IsLive_example :
    IsLive (send_message_with_headers broker new_bus (codes "m") "/a" []).0
send_message_with_headers-IsLive_example =
    send_message_with_headers-IsLive broker new_bus (codes "m") "/a" [] IsLive-new_bus
