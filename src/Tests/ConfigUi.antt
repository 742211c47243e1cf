-- ===== src/Tests/ConfigUi.antt =====
-- cmd/configui: runs, and an instance of the theorem.
use i_drac_telemetry_referen.Common.{false, true, ◌≡◌, refl, none, some, [], ◌∷◌}
use i_drac_telemetry_referen.Settings.{kafka_properties, kafka_defaults}
use i_drac_telemetry_referen.Service.{BaseClient, new_base_client}
use i_drac_telemetry_referen.ConfigUi.{
  KfkConfig, set, abort, kafka_config, kafka_page, get_kafka_broker_config, get_splunk_http_config,
  config_hec, handle_csv, panicked,
}
use i_drac_telemetry_referen.ConfigUi.Kafka.{
  apply_actions, pump_answer, or_keep, stored_if, at, get_kafka_broker_config-kafka_config,
}
use i_drac_telemetry_referen.Json.{Json}
use i_drac_telemetry_referen.Tests.Fixtures.{trees, unary_text}

abbrev empty_form : KfkConfig
empty_form = record {
  broker = "";
  topic = "";
  alert_topic = "";
  kafka_ca_cert = "";
  kafka_client_cert = "";
  kafka_client_key = "";
  kafka_skip_verify = "";
  tls = "";
  client_auth = "";
}

-- A form that cannot be bound empties the alert topic.
failed_form :
    kafka_config empty_form true
    ≡ abort ∷ set "/kafkapump/config" "/kconfigui" "kafkaAlertTopic" "" ∷ []
unfolding kafka_config
failed_form = refl

abbrev client : BaseClient Json
client = new_base_client (record { posted = []; sends = 0 }) "commands" "reply." "configui"

-- The configuration of the form is not the one that is added.
empty_hec :
    (config_hec trees
      (λ n. none)
      unary_text
      client
      (record { url = "http://s"; key = "k"; index = "i" })
      false).1
    ≡ (config_hec trees
        (λ n. none)
        unary_text
        client
        (record { url = ""; key = ""; index = "" })
        false).1
unfolding config_hec
empty_hec = refl

short_line :
    handle_csv trees (λ n. none) unary_text false client (("10.0.0.1" ∷ "root" ∷ []) ∷ [])
    ≡ panicked client
unfolding handle_csv
short_line = refl

-- The page of the Splunk pump panics where the pump does not answer.
no_answer : get_splunk_http_config (λ p. none) ≡ none
unfolding get_splunk_http_config
no_answer = refl

get_kafka_broker_config-kafka_config_example :
    get_kafka_broker_config (
      pump_answer (
        apply_actions kafka_properties kafka_defaults (
          kafka_config (record empty_form { broker = "kafka:9092"; kafka_ca_cert = "PEM" }) false)))
    ≡ some (
        kafka_page
          (or_keep "kafka:9092" (at kafka_defaults "kafkaBroker"))
          (or_keep "" (at kafka_defaults "kafkaTopic"))
          ""
          (or_keep "" (at kafka_defaults "kafkaSkipVerify"))
          (stored_if "kafkaCACert" "PEM" (at kafka_defaults "kafkaCACert"))
          (stored_if "kafkaClientCert" "" (at kafka_defaults "kafkaClientCert")))
get_kafka_broker_config-kafka_config_example =
    get_kafka_broker_config-kafka_config kafka_defaults
      (record empty_form { broker = "kafka:9092"; kafka_ca_cert = "PEM" })
