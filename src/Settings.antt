-- ===== src/Settings.antt =====
-- cmd/*: the settings of the programs, from their defaults, the environment and the configuration
-- service. `getenv` is the environment: the empty text for a variable that is not set.
pub mod Environment
use i_drac_telemetry_referen.Common.{
  Bool, false, ◌||◌, Option, none, some, List, [], ◌∷◌, String, if◌then◌else◌,
}
use i_drac_telemetry_referen.Common.Dict
use i_drac_telemetry_referen.Common.Dict.{Dict}
use i_drac_telemetry_referen.Common.Text.{◌==◌}
use i_drac_telemetry_referen.Json.{Json, str}

-- What a program reads: for each variable, in order, the setting that it replaces unless it is
-- empty.
abbrev pub Variables : Type 0
Variables = List (String × String)

unfoldable pub read_env : (String → String) → Variables → Dict String → Dict String
unfolding Dict.put
read_env getenv [] settings = settings
read_env getenv ((variable, key) ∷ rest) settings =
    read_env getenv rest
      (if getenv variable == "" then settings else Dict.put settings key (getenv variable))

abbrev pub bus_variables : Variables
bus_variables = ("MESSAGEBUS_HOST", "mbhost") ∷ ("MESSAGEBUS_PORT", "mbport") ∷ []

abbrev pub bus_defaults : Dict String
bus_defaults = ("mbhost", "activemq") ∷ ("mbport", "61613") ∷ []

-- cmd/otelpump
abbrev pub otel_variables : Variables
otel_variables =
    ("MESSAGEBUS_HOST", "mbhost")
    ∷ ("MESSAGEBUS_PORT", "mbport")
    ∷ ("OTEL_COLLECTOR", "otelCollector")
    ∷ ("OTEL_CACERT", "otelCACert")
    ∷ ("OTEL_CLIENT_CERT", "otelClientCert")
    ∷ ("OTEL_CLIENT_KEY", "otelClientKey")
    ∷ ("OTEL_SKIP_VERIFY", "otelSkipVerify")
    ∷ []

abbrev pub otel_defaults : Dict String
otel_defaults =
    ("mbhost", "activemq")
    ∷ ("mbport", "61613")
    ∷ ("otelCollector", "")
    ∷ ("otelCACert", "")
    ∷ ("otelClientCert", "")
    ∷ ("otelClientKey", "")
    ∷ ("otelSkipVerify", "")
    ∷ []

-- cmd/kafkapump
abbrev pub kafka_variables : Variables
kafka_variables =
    ("MESSAGEBUS_HOST", "mbhost")
    ∷ ("MESSAGEBUS_PORT", "mbport")
    ∷ ("KAFKA_BROKER", "kafkaBroker")
    ∷ ("KAFKA_TOPIC", "kafkaTopic")
    ∷ ("KAFKA_ALERT_TOPIC", "kafkaAlertTopic")
    ∷ ("KAFKA_PARTITION", "kafkaPartition")
    ∷ ("KAFKA_CACERT", "kafkaCACert")
    ∷ ("KAFKA_CLIENT_CERT", "kafkaClientCert")
    ∷ ("KAFKA_CLIENT_KEY", "kafkaClientKey")
    ∷ ("KAFKA_SKIP_VERIFY", "kafkaSkipVerify")
    ∷ []

abbrev pub kafka_defaults : Dict String
kafka_defaults =
    ("mbhost", "activemq")
    ∷ ("mbport", "61613")
    ∷ ("kafkaBroker", "")
    ∷ ("kafkaTopic", "")
    ∷ ("kafkaAlertTopic", "")
    ∷ ("kafkaPartition", "0")
    ∷ ("kafkaCACert", "")
    ∷ ("kafkaClientCert", "")
    ∷ ("kafkaClientKey", "")
    ∷ ("kafkaSkipVerify", "")
    ∷ []

-- cmd/splunkpump
abbrev pub splunk_variables : Variables
splunk_variables =
    ("MESSAGEBUS_HOST", "mbhost")
    ∷ ("MESSAGEBUS_PORT", "mbport")
    ∷ ("SPLUNK_HEC_URL", "splunkURL")
    ∷ ("SPLUNK_HEC_KEY", "splunkKey")
    ∷ ("SPLUNK_HEC_INDEX", "splunkIndex")
    ∷ []

abbrev pub splunk_defaults : Dict String
splunk_defaults =
    ("mbhost", "activemq")
    ∷ ("mbport", "61613")
    ∷ ("splunkURL", "http://splunkhost:8088")
    ∷ ("splunkKey", "")
    ∷ []

-- cmd/victoriapump
abbrev pub victoria_variables : Variables
victoria_variables =
    ("MESSAGEBUS_HOST", "mbhost")
    ∷ ("MESSAGEBUS_PORT", "mbport")
    ∷ ("VICTORIA_METRICS_URL", "victoria_url")
    ∷ ("VICTORIA_USERNAME", "victoria_user")
    ∷ ("VICTORIA_PASSWORD", "victoria_pass")
    ∷ []

abbrev pub victoria_defaults : Dict String
victoria_defaults =
    ("mbhost", "activemq")
    ∷ ("mbport", "61613")
    ∷ ("victoria_url", "")
    ∷ ("victoria_user", "")
    ∷ ("victoria_pass", "")
    ∷ []

-- cmd/timescalepump
abbrev pub timescale_variables : Variables
timescale_variables =
    ("MESSAGEBUS_HOST", "mbhost")
    ∷ ("MESSAGEBUS_PORT", "mbport")
    ∷ ("POSTGRES_USER", "timescaleuser")
    ∷ ("POSTGRES_DEFAULT_PWD", "timescalepwd")
    ∷ ("TIMESCALE_SERVER", "timescaleDBHost")
    ∷ ("TIMESCALE_DB", "timescaleDBName")
    ∷ []

abbrev pub timescale_defaults : Dict String
timescale_defaults =
    ("mbhost", "activemq")
    ∷ ("mbport", "61613")
    ∷ ("timescaleuser", "postgres")
    ∷ ("timescalepwd", "postgres")
    ∷ ("timescaleDBHost", "localhost")
    ∷ ("timescaleDBHostPort", "5432")
    ∷ ("timescaleDBName", "poweredge_telemetry_metrics")
    ∷ []

-- cmd/configui
abbrev pub configui_variables : Variables
configui_variables =
    ("MESSAGEBUS_HOST", "mbhost")
    ∷ ("MESSAGEBUS_PORT", "mbport")
    ∷ ("CONFIGUI_HTTP_PORT", "httpport")
    ∷ []

abbrev pub configui_defaults : Dict String
configui_defaults = ("mbhost", "activemq") ∷ ("mbport", "61613") ∷ ("httpport", "8082") ∷ []

-- cmd/influxpump, which takes four variables also where they are empty
unfoldable pub influx_env : (String → String) → Dict String → Dict String
unfolding read_env
influx_env getenv settings =
    Dict.put
      (Dict.put
        (Dict.put (Dict.put (read_env getenv bus_variables settings) "URL" (getenv "INFLUXDB_URL"))
          "Token" (getenv "INFLUX_TOKEN"))
        "Org" (getenv "INFLUX_ORG"))
      "Bucket" (getenv "INFLUX_BUCKET")

abbrev pub influx_defaults : Dict String
influx_defaults =
    ("mbhost", "activemq") ∷ ("mbport", "61613") ∷ ("URL", "http://localhost:8086") ∷ []

-- cmd/dbdiscauth, where the port of the database is taken when its host is set
abbrev pub dbdiscauth_defaults : Dict String
dbdiscauth_defaults =
    ("mbhost", "activemq")
    ∷ ("mbport", "61613")
    ∷ ("mysqluser", "")
    ∷ ("mysqlpwd", "")
    ∷ ("mysqlHost", "localhost")
    ∷ ("mysqlHostPort", "3306")
    ∷ ("mysqlDBName", "telemetrysource_services_db")
    ∷ []

abbrev pub dbdiscauth_variables : Variables
dbdiscauth_variables =
    ("MESSAGEBUS_HOST", "mbhost")
    ∷ ("MESSAGEBUS_PORT", "mbport")
    ∷ ("MYSQL_USER", "mysqluser")
    ∷ ("MYSQL_PASSWORD", "mysqlpwd")
    ∷ ("MYSQL_HOST", "mysqlHost")
    ∷ []

abbrev pub with_host_port : (String → String) → Dict String → Dict String
with_host_port getenv settings =
    if getenv "MYSQL_HOST" == ""
    then settings
    else Dict.put settings "mysqlHostPort" (getenv "MYSQL_HOST_PORT")

unfoldable pub dbdiscauth_env : (String → String) → Dict String → Dict String
unfolding read_env
dbdiscauth_env getenv settings =
    read_env getenv (("MYSQL_DATABASE", "mysqlDBName") ∷ [])
      (with_host_port getenv (read_env getenv dbdiscauth_variables settings))

-- The properties that the configuration service may read and set
abbrev pub otel_properties : List String
otel_properties =
    "otelCollector" ∷ "otelCACert" ∷ "otelClientCert" ∷ "otelClientKey" ∷ "otelSkipVerify" ∷ []

abbrev pub kafka_properties : List String
kafka_properties =
    "kafkaBroker" ∷ "kafkaTopic" ∷ "kafkaAlertTopic" ∷ "kafkaPartition" ∷ "kafkaCACert"
    ∷ "kafkaClientCert" ∷ "kafkaClientKey" ∷ "kafkaSkipVerify" ∷ []

abbrev pub splunk_properties : List String
splunk_properties = "splunkURL" ∷ "splunkKey" ∷ "splunkIndex" ∷ []

unfoldable pub is_property : List String → String → Bool
is_property [] name = false
is_property (p ∷ ps) name = p == name || is_property ps name

-- The outcome of setting a property: the type assertion panics for a value that is no text.
pub data SetOutcome : Type 0 where
  done : Dict String → SetOutcome
  unknown : SetOutcome
  panics : SetOutcome

abbrev set_value : Dict String → String → Json → SetOutcome
set_value settings name (str v) = done (Dict.put settings name v)
set_value settings name _ = panics

-- `configSet`
unfoldable pub config_set : List String → Dict String → String → Json → SetOutcome
unfolding is_property Dict.put
config_set properties settings name value =
    if is_property properties name then set_value settings name value else unknown

abbrev pub or_empty_text : Option String → String
or_empty_text none = ""
or_empty_text (some v) = v

-- `configGet`, with none for an unknown property
unfoldable pub config_get : List String → Dict String → String → Option String
unfolding is_property Dict.get
config_get properties settings name =
    if is_property properties name then some (or_empty_text (Dict.get settings name)) else none
