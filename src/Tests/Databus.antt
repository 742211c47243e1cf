-- ===== src/Tests/Databus.antt =====
-- internal/databus: instances of the theorems.
use i_drac_telemetry_referen.Tests.Fixtures.{trees}
use i_drac_telemetry_referen.Common.{
  ℕ, zero, suc, ◌≡◌, true, ◌⊎◌, inl, inr, refl, Option, none, some, List, [], ◌∷◌, ◌++◌, String,
}
use i_drac_telemetry_referen.Json.{Json}
use i_drac_telemetry_referen.Wire.{Envelope, empty_envelope, encode_envelope}
use i_drac_telemetry_referen.Service.{Bus, BaseClient, new_base_client, decode_text}
use i_drac_telemetry_referen.Databus.{contains, receive_envelopes, send_group}
use i_drac_telemetry_referen.Databus.Group.{DataGroup, marshal_group}
use i_drac_telemetry_referen.Databus.Reading.{read_group, empty_group}
use i_drac_telemetry_referen.Databus.Subscription.{subscribe, subscribe-receive_envelopes}
use i_drac_telemetry_referen.Databus.RoundTrip.{read_group-marshal_group}
use i_drac_telemetry_referen.Databus.Client.{get_group, Any, get_group-texts}
use i_drac_telemetry_referen.Service.Typed.{texts}
use i_drac_telemetry_referen.Databus.Receivers.{Distinct, subscribes, receive_envelopes-Distinct}
use i_drac_telemetry_referen.Databus.FanOut.{group_envelope, reached, send_group-reached}

-- The second send fails.
abbrev second_fails : ℕ → Option String
second_fails (suc zero) = some "closed"
second_fails n = none

abbrev subscription : Json
subscription =
    encode_envelope (record empty_envelope { type = "subscribe"; reply_to = "/queue/influx" })

receive_envelopes-Distinct_example :
    Distinct (receive_envelopes trees second_fails [] (subscription ∷ subscription ∷ [])).0
    × ((q : String)
        → contains (receive_envelopes trees second_fails [] (subscription ∷ subscription ∷ [])).0 q
          ≡ subscribes trees second_fails (subscription ∷ subscription ∷ []) q)
receive_envelopes-Distinct_example =
    receive_envelopes-Distinct trees second_fails (subscription ∷ subscription ∷ [])

abbrev power : DataGroup
power = record {
  host_id = "S1";
  id = "PowerMetrics";
  label = "S1 PowerMetrics";
  sequence = "7";
  system = "S1";
  host_name = "host1";
  model = "R750";
  sku = "S1";
  fqdn = "host1.lan";
  fw_ver = "6.10";
  img_id = "";
  timestamp = "2024-05-01T10:00:00Z";
  values = some [];
  events = none;
}

abbrev idle : Bus Json
idle = record { posted = []; sends = 0 }

abbrev queues : List String
queues = "/queue/influx" ∷ "/queue/kafka" ∷ "/queue/otel" ∷ []

-- The second queue is missed, the third is not.
reached_two :
    reached trees second_fails 0 queues subscription
    ≡ ("/queue/influx", subscription) ∷ ("/queue/otel", subscription) ∷ []
reached_two = refl

send_group-reached_example :
    ((send_group trees second_fails idle queues power).posted
      ≡ [] ++ reached trees second_fails 0 queues (encode_envelope (group_envelope power)))
    × (decode_text trees second_fails (encode_envelope (group_envelope power))
        ≡ some (group_envelope power))
send_group-reached_example = send_group-reached trees second_fails idle queues power

read_group-marshal_group_example : read_group (marshal_group power) ≡ some power
read_group-marshal_group_example = read_group-marshal_group power

abbrev queue : List (DataGroup ⊎ Envelope)
queue = inr (record empty_envelope { type = "get" }) ∷ inl power ∷ []

get_group-texts_example :
    get_group trees second_fails
      (texts empty_group read_group trees second_fails "datagroup" marshal_group Any queue)
    ≡ power ∷ []
get_group-texts_example = get_group-texts trees second_fails queue (refl, (tt, tt))

abbrev pump : BaseClient Json
pump = new_base_client idle "/queue/databus/command" "/queue/databus/reply." "pump"

subscribe-receive_envelopes_example :
    (message : Json) × ((subscribe trees (λ n. none) pump "/queue/influx").0.bus.posted
      ≡ [] ++ ("/queue/databus/command", message) ∷ [])
    × (contains (receive_envelopes trees (λ n. none) [] (message ∷ [])).0 "/queue/influx" ≡ true)
subscribe-receive_envelopes_example =
    subscribe-receive_envelopes trees (λ n. none) pump "/queue/influx" [] refl refl
