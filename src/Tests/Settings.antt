-- ===== src/Tests/Settings.antt =====
-- cmd/*: settings of programs, and instances of the theorems.
use i_drac_telemetry_referen.Common.{◌≡◌, refl, some, String, if◌then◌else◌}
use i_drac_telemetry_referen.Common.Dict
use i_drac_telemetry_referen.Common.Dict.{Dict}
use i_drac_telemetry_referen.Common.Text.{◌==◌}
use i_drac_telemetry_referen.Json.{num}
use i_drac_telemetry_referen.Settings.{
  read_env, splunk_variables, splunk_defaults, influx_env, influx_defaults, dbdiscauth_env,
  dbdiscauth_defaults, kafka_properties, kafka_defaults, panics, config_set,
}
use i_drac_telemetry_referen.Settings.Environment.{dbdiscauth_env-port}

abbrev empty_env : String → String
empty_env name = ""

-- The URL of influxpump is empty without its variable, whatever the default.
influx_default : Dict.get (influx_env empty_env influx_defaults) "URL" ≡ some ""
unfolding influx_env Dict.get
influx_default = refl

splunk_default :
    Dict.get (read_env empty_env splunk_variables splunk_defaults) "splunkURL"
    ≡ some "http://splunkhost:8088"
unfolding read_env Dict.get
splunk_default = refl

-- A number for a property ends the program.
number_for_property : config_set kafka_properties kafka_defaults "kafkaPartition" (num "1") ≡ panics
unfolding config_set
number_for_property = refl

abbrev host_only : String → String
host_only name = if name == "MYSQL_HOST" then "db.local" else ""

host_alone : Dict.get (dbdiscauth_env host_only dbdiscauth_defaults) "mysqlHostPort" ≡ some ""
host_alone = dbdiscauth_env-port host_only dbdiscauth_defaults
