-- ===== src/DbDiscAuth.antt =====
-- cmd/dbdiscauth/dbdiscauth.go: the services in the tables of a database, and the commands on them.
-- The database is a parameter, with what the driver returns for each statement; a statement may
-- change it also where it fails. Broadcasts that the program starts as goroutines wait in `pending`.
pub mod Steps
pub mod Table
pub mod Good
pub mod Resend
use i_drac_telemetry_referen.Common.{
  ℕ, Option, none, some, List, [], ◌∷◌, ◌++◌, String, if◌then◌else◌,
}
use i_drac_telemetry_referen.Common.Dict.{Dict}
use i_drac_telemetry_referen.Common.Int.{ℤ}
use i_drac_telemetry_referen.Common.Text.{◌==◌}
use i_drac_telemetry_referen.Json.{Json, JsonText, same_key}
use i_drac_telemetry_referen.Json.Structs.{◌>>=◌, set_text, read_struct, read_fields}
use i_drac_telemetry_referen.Wire.{Envelope, document}
use i_drac_telemetry_referen.Service.{Bus, send_to}
use i_drac_telemetry_referen.Service.Typed.{decode_payload}
use i_drac_telemetry_referen.Auth.{
  IntText, Service, SplunkConfig, empty_service, map_json, set_map, map_fields, read_map,
  read_service,
}
use i_drac_telemetry_referen.Auth.Client.{marshal_splunk_config, broadcast_service}

-- A row of the table services, with the text of its secrets
pub record Row (T : Type 0) : Type 0 where
  pub service_type : ℤ
  pub ip : String
  pub auth_type : ℤ
  pub auth : T

pub record MySql (T : Type 0) : Type 1 where
  pub Db : Type 0
  -- The rows that a query gives, or none for an error
  pub select_services : Db → Db × Option (List (Row T))
  pub select_hec : Db → Db × Option (List SplunkConfig)
  -- The error of a statement, if there is one
  pub insert_service : Db → Row T → Db × Option String
  pub delete_service : Db → String → Db × Option String
  pub insert_hec : Db → SplunkConfig → Db × Option String

abbrev empty_splunk_config : SplunkConfig
empty_splunk_config = record { url = ""; key = ""; index = "" }

unfoldable pub set_splunk_config : SplunkConfig → String → Json → Option SplunkConfig
unfolding same_key
set_splunk_config c key j =
    if same_key key "url"
    then set_text c (λ v. record c { url = v }) j
    else if same_key key "key"
    then set_text c (λ v. record c { key = v }) j
    else if same_key key "index"
    then set_text c (λ v. record c { index = v }) j
    else some c

unfoldable pub read_splunk_config : Json → Option SplunkConfig
unfolding set_splunk_config read_fields
read_splunk_config j = read_struct set_splunk_config empty_splunk_config j

module _ (json : JsonText) (sql : MySql json.Text) where
  open json use {Text, print, parse}
  open sql use {Db, select_services, select_hec, insert_service, delete_service, insert_hec}

  pub record Program : Type 0 where
    pub db : Db
    pub bus : Bus Text
    pub pending : List Service

  pub data Outcome : Type 0 where
    goes_on : Program → Outcome
    exits : Outcome

  abbrev pub scanned : Row Text → Option (Dict String) → Service
  scanned row auth = record {
    service_type = row.service_type;
    ip = row.ip;
    auth_type = row.auth_type;
    auth = auth;
    state = "";
  }

  -- One row in the loop of `getInstancesFromDB`
  unfoldable pub service_of_row : Row Text → Option Service
  unfolding read_map
  service_of_row row = parse row.auth >>= λ j. set_map none (scanned row) j

  unfoldable pub services_of_rows : List (Row Text) → Option (List Service)
  unfolding service_of_row
  services_of_rows [] = some []
  services_of_rows (row ∷ rows) =
      service_of_row row >>= λ s. services_of_rows rows >>= λ rest. some (s ∷ rest)

  abbrev pub read_rows : Db × Option (List (Row Text)) → Db × Option (List Service)
  read_rows (db, rows) = (db, rows >>= services_of_rows)

  -- `getInstancesFromDB`
  unfoldable pub get_instances_from_db : Db → Db × Option (List Service)
  unfolding services_of_rows
  get_instances_from_db db = read_rows (select_services db)

  -- The rows have three columns, which `Scan` refuses to put into four places.
  abbrev hec_of_rows : List SplunkConfig → Option (List SplunkConfig)
  hec_of_rows [] = some []
  hec_of_rows (_ ∷ _) = none

  abbrev read_hec : Db × Option (List SplunkConfig) → Db × Option (List SplunkConfig)
  read_hec (db, rows) = (db, rows >>= hec_of_rows)

  -- `getHECInstancesFromDB`
  unfoldable pub get_hec_instances_from_db : Db → Db × Option (List SplunkConfig)
  get_hec_instances_from_db db = read_hec (select_hec db)

  -- `deleteServiceFromDB`, whose error is logged only
  unfoldable pub delete_service_from_db : Program → Service → Program
  delete_service_from_db p service = record p { db = (delete_service p.db service.ip).0 }

  unfoldable pub row_of : Service → Row Text
  unfolding map_fields
  row_of service = record {
    service_type = service.service_type;
    ip = service.ip;
    auth_type = service.auth_type;
    auth = print (map_json service.auth);
  }

  -- The broadcasts of the services that a query has given
  abbrev pub broadcast_later : Program → Db × Option (List Service) → Program
  broadcast_later p (db, none) = record p { db = db }
  broadcast_later p (db, some services) = record p { db = db; pending = p.pending ++ services }

  unfoldable pub resend_services : Program → Program
  unfolding get_instances_from_db
  resend_services p = broadcast_later p (get_instances_from_db p.db)

  module _ (fails : ℕ → Option String) (ints : IntText) where
    abbrev pub added : Program → Service → Db × Option String → Program
    added p service (db, some e) = record p { db = db }
    added p service (db, none) = record p {
      db = db;
      bus = (broadcast_service json fails ints p.bus service).0;
    }

    -- `addServiceToDB`
    unfoldable pub add_service_to_db : Program → Service → Program
    unfolding row_of broadcast_service
    add_service_to_db p service = added p service (insert_service p.db (row_of service))

    abbrev pub hec_added : Program → SplunkConfig → Db × Option String → Program
    hec_added p config (db, some e) = record p { db = db }
    hec_added p config (db, none) = record p {
      db = db;
      bus =
          (send_to json fails p.bus "/queue/authorization" "splunkconfig"
            (document (marshal_splunk_config config))).0;
    }

    -- `splunkAddHECToDB`
    unfoldable pub splunk_add_hec_to_db : Program → SplunkConfig → Program
    unfolding send_to marshal_splunk_config
    splunk_add_hec_to_db p config = hec_added p config (insert_hec p.db config)

    abbrev pub with_payload {ℓ} :
        {A : Type ℓ} → Program → (Program → A → Program) → Option A → Program
    with_payload p handle none = p
    with_payload p handle (some a) = handle p a

    abbrev pub service_in : Envelope → Option Service
    service_in env = decode_payload empty_service (read_service ints) env.payload

    abbrev pub config_in : Envelope → Option SplunkConfig
    config_in env = decode_payload empty_splunk_config read_splunk_config env.payload

    -- One round of the loop of `main`
    unfoldable pub handle_command : Program → Envelope → Outcome
    unfolding resend_services add_service_to_db delete_service_from_db splunk_add_hec_to_db
        get_hec_instances_from_db read_service read_splunk_config
    handle_command p env =
        if env.type == "resend"
        then goes_on (resend_services p)
        else if env.type == "addservice"
        then goes_on (with_payload p add_service_to_db (service_in env))
        else if env.type == "deleteservice"
        then goes_on (with_payload p delete_service_from_db (service_in env))
        else if env.type == "splunkaddhec"
        then goes_on (with_payload p splunk_add_hec_to_db (config_in env))
        else if env.type == "gethecconfig"
        then goes_on (record p { db = (get_hec_instances_from_db p.db).0 })
        else if env.type == "terminate"
        then exits
        else goes_on p
