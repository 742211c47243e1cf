-- ===== src/ConfigUi.antt =====
-- cmd/configui/configui.go: what the handlers of the configuration page do.
-- A form comes with whether `ShouldBind` has failed, after which the first handlers go on with what
-- was bound. `Action` is what a handler asks for whose outcome is only logged; a panic is none.
pub mod Kafka
use i_drac_telemetry_referen.Common.{
  ℕ, Bool, true, false, not, Option, none, some, List, [], ◌∷◌, ◌++◌, String, if◌then◌else◌,
}
use i_drac_telemetry_referen.Disc.{idrac}
use i_drac_telemetry_referen.Common.Text.{◌==◌}
use i_drac_telemetry_referen.Json.{Json, JsonText, str}
use i_drac_telemetry_referen.Json.Structs.{◌>>=◌}
use i_drac_telemetry_referen.Service.{BaseClient}
use i_drac_telemetry_referen.Wire.{document}
use i_drac_telemetry_referen.Auth.{
  IntText, Service, SplunkConfig, empty_service, auth_type_username_password, marshal_service,
}
use i_drac_telemetry_referen.Auth.Client.{send, add_service, delete_service, splunk_add_hec}

pub record MySys : Type 0 where
  pub hostname : String
  pub username : String
  pub password : String

pub record MyHec : Type 0 where
  pub url : String
  pub key : String
  pub index : String

pub record KfkConfig : Type 0 where
  pub broker : String
  pub topic : String
  pub alert_topic : String
  pub kafka_ca_cert : String
  pub kafka_client_cert : String
  pub kafka_client_key : String
  pub kafka_skip_verify : String
  pub tls : String
  pub client_auth : String

pub record OtelConfig : Type 0 where
  pub otel_collector : String
  pub otel_ca_cert : String
  pub otel_client_cert : String
  pub otel_client_key : String
  pub otel_skip_verify : String

pub data Action : Type 0 where
  -- `ConfigBus.Set` on a command queue, with the queue for its reply
  set : (command_queue response_queue name value : String) → Action
  -- `SaveUploadedFile`
  save : (content file : String) → Action
  abort : Action

-- A block of a handler: a property is set, perhaps only if a field of the form is not empty, and
-- perhaps after the field has been saved as a file.
pub data Block : Type 0 where
  always : (name value : String) → Block
  given : (name value : String) → Block
  uploaded : (name content file : String) → Block

module _ (command_queue response_queue : String) where
  abbrev pub block_actions : Block → List Action
  block_actions (always name value) = set command_queue response_queue name value ∷ []
  block_actions (given name value) =
      if value == "" then [] else set command_queue response_queue name value ∷ []
  block_actions (uploaded name content file) =
      if content == ""
      then []
      else save content file ∷ set command_queue response_queue name name ∷ []

  unfoldable pub handle_blocks : List Block → List Action
  handle_blocks [] = []
  handle_blocks (b ∷ bs) = block_actions b ++ handle_blocks bs

abbrev pub abort_if : Bool → List Action → List Action
abort_if failed actions = if failed then abort ∷ actions else actions

abbrev pub kafka_blocks : KfkConfig → List Block
kafka_blocks form =
    given "kafkaBroker" form.broker
    ∷ given "kafkaTopic" form.topic
    ∷ always "kafkaAlertTopic" form.alert_topic
    ∷ given "kafkaSkipVerify" form.kafka_skip_verify
    ∷ uploaded "kafkaCACert" form.kafka_ca_cert "/extrabin/certs/kafkaCACert"
    ∷ uploaded "kafkaClientCert" form.kafka_client_cert "/extrabin/certs/kafkaClientCert"
    ∷ uploaded "kafkaClientKey" form.kafka_client_key "/extrabin/certs/kafkaClientKey"
    ∷ []

-- `kafkaConfig`
unfoldable pub kafka_config : KfkConfig → Bool → List Action
unfolding handle_blocks
kafka_config form failed =
    abort_if failed (handle_blocks "/kafkapump/config" "/kconfigui" (kafka_blocks form))

abbrev otel_blocks : OtelConfig → List Block
otel_blocks form =
    given "otelCollector" form.otel_collector
    ∷ given "otelSkipVerify" form.otel_skip_verify
    ∷ uploaded "otelCACert" form.otel_ca_cert "/extrabin/certs/otelCACert"
    ∷ uploaded "otelClientCert" form.otel_client_cert "/extrabin/certs/otelClientCert"
    ∷ uploaded "otelClientKey" form.otel_client_key "/extrabin/certs/otelClientKey"
    ∷ []

-- `otelConfig`
unfoldable pub otel_config : OtelConfig → Bool → List Action
unfolding handle_blocks
otel_config form failed =
    abort_if failed (handle_blocks "/otelpump/config" "/oconfigui" (otel_blocks form))

abbrev flag : String → String
flag v = if v == "" then "" else "true"

abbrev pub kafka_page :
    (broker topic alert_topic skip_verify ca_cert client_cert : String) → KfkConfig
kafka_page broker topic alert_topic skip_verify ca_cert client_cert = record {
  broker = broker;
  topic = topic;
  alert_topic = alert_topic;
  kafka_ca_cert = "";
  kafka_client_cert = "";
  kafka_client_key = "";
  kafka_skip_verify = skip_verify;
  tls = flag ca_cert;
  client_auth = flag client_cert;
}

-- The page of a pump reads its properties: `answer` is the value of the response to `ConfigBus.Get`,
-- or none for an error.
module _ (answer : String → Option Json) where
  abbrev text_value : Json → Option String
  text_value (str v) = some v
  text_value _ = none

  -- An error leaves the field empty.
  abbrev read_or_empty : Option Json → Option String
  read_or_empty none = some ""
  read_or_empty (some j) = text_value j

  -- `getKafkaBrokerConfig`
  unfoldable pub get_kafka_broker_config : Option KfkConfig
  get_kafka_broker_config = read_or_empty (answer "kafkaBroker") >>= λ broker.
      read_or_empty (answer "kafkaTopic") >>= λ topic.
      read_or_empty (answer "kafkaAlertTopic") >>= λ alert_topic.
      read_or_empty (answer "kafkaCACert") >>= λ ca_cert.
      read_or_empty (answer "kafkaSkipVerify") >>= λ skip_verify.
      read_or_empty (answer "kafkaClientCert") >>= λ client_cert.
      some (kafka_page broker topic alert_topic skip_verify ca_cert client_cert)

  -- An error leaves a nil response, whose value is read all the same.
  abbrev read_or_panic : Option Json → Option String
  read_or_panic none = none
  read_or_panic (some j) = text_value j

  -- `getSplunkHttpConfig`
  unfoldable pub get_splunk_http_config : Option MyHec
  get_splunk_http_config = read_or_panic (answer "splunkURL") >>= λ url.
      read_or_panic (answer "splunkKey") >>= λ key.
      read_or_panic (answer "splunkIndex") >>= λ index.
      some (record { url = url; key = key; index = index })

-- A handler that has gone through its loop, or has panicked in it
pub data Handled (A : Type 0) : Type 0 where
  went_through : A → Handled A
  panicked : A → Handled A

abbrev and_then : {A : Type 0} → Handled A → (A → Handled A) → Handled A
and_then (went_through a) f = f a
and_then (panicked a) f = panicked a

pub data Reply : Type 0 where
  success failure : Reply

abbrev reply_of : Option String → Reply
reply_of none = success
reply_of (some e) = failure

abbrev idrac_service : String → String → String → Service
idrac_service hostname username password = record empty_service {
  service_type = idrac;
  ip = hostname;
  auth_type = auth_type_username_password;
  auth = some (("password", password) ∷ ("username", username) ∷ []);
}

abbrev hec_blocks : MyHec → List Block
hec_blocks form =
    always "splunkURL" form.url ∷ always "splunkKey" form.key ∷ always "splunkIndex" form.index ∷ []

module _ (json : JsonText) (fails : ℕ → Option String) (ints : IntText) where
  open json use {Text}

  abbrev with_reply : BaseClient Text × Option String → BaseClient Text × Reply
  with_reply (client, e) = (client, reply_of e)

  -- `addSystem`
  unfoldable pub add_system : BaseClient Text → MySys → Bool → BaseClient Text × Reply
  unfolding add_service
  add_system client form failed =
      if failed
      then (client, failure)
      else with_reply (
          add_service json fails ints client
            (idrac_service form.hostname form.username form.password))

  -- `DeleteProducer` of internal/databus/databus.go
  unfoldable pub delete_producer : BaseClient Text → Service → BaseClient Text × Option String
  unfolding send marshal_service
  delete_producer client service =
      send json fails ints client "deleteproducer" (document (marshal_service ints service))

  -- The clients of the authorization service and of the data bus share a bus: it goes from the one
  -- to the other and back.
  abbrev with_bus_of : BaseClient Text → BaseClient Text → BaseClient Text
  with_bus_of other client = record client { bus = other.bus }

  abbrev producer_deleted :
      BaseClient Text → BaseClient Text → Service → BaseClient Text × BaseClient Text
  producer_deleted auth_client data_bus service =
      let data_bus' = (delete_producer (with_bus_of auth_client data_bus) service).0 in
      (with_bus_of data_bus' auth_client, data_bus')

  abbrev config_hec_with :
      List Action → BaseClient Text × Option String → List Action × (BaseClient Text × Reply)
  config_hec_with actions (client, e) = (actions, (client, reply_of e))

  -- `configHEC`: the configuration that is added is not filled from the form.
  unfoldable pub config_hec :
      BaseClient Text → MyHec → Bool → List Action × (BaseClient Text × Reply)
  unfolding handle_blocks splunk_add_hec
  config_hec client form failed =
      if failed
      then ([], (client, failure))
      else config_hec_with (handle_blocks "/splunkpump/config" "/configui" (hec_blocks form))
          (splunk_add_hec json fails ints client (record { url = ""; key = ""; index = "" }))

  -- `nil_returns` says whether `AbortWithError` of gin returns when it is given a nil error, as it is
  -- where a client has failed.
  module _ (nil_returns : Bool) where
    abbrev deleted :
        BaseClient Text
        → BaseClient Text × Option String
        → Service
        → Handled (BaseClient Text × BaseClient Text)
    deleted data_bus (auth_client, none) service =
        went_through (producer_deleted auth_client data_bus service)
    deleted data_bus (auth_client, some e) service =
        if nil_returns
        then went_through (producer_deleted auth_client data_bus service)
        else panicked (auth_client, with_bus_of auth_client data_bus)

    -- The loop of `deleteSystem` over the names of the hosts
    unfoldable pub delete_system :
        BaseClient Text × BaseClient Text
        → List String
        → Handled (BaseClient Text × BaseClient Text)
    unfolding delete_service delete_producer
    delete_system clients [] = went_through clients
    delete_system (auth_client, data_bus) (hostname ∷ hostnames) =
        let service = record empty_service { service_type = idrac; ip = hostname } in
        and_then (deleted data_bus (delete_service json fails ints auth_client service) service)
          λ clients. delete_system clients hostnames

    abbrev added : BaseClient Text × Option String → Handled (BaseClient Text)
    added (client, none) = went_through client
    added (client, some e) = if nil_returns then went_through client else panicked client

    -- The loop of `handleCsv` over the lines; a line with fewer than three fields panics.
    unfoldable pub handle_csv : BaseClient Text → List (List String) → Handled (BaseClient Text)
    unfolding add_service
    handle_csv client [] = went_through client
    handle_csv client ((hostname ∷ username ∷ password ∷ _) ∷ lines) =
        and_then
          (added (add_service json fails ints client (idrac_service hostname username password)))
          λ client'. handle_csv client' lines
    handle_csv client (_ ∷ lines) = panicked client
