-- ===== src/Auth.antt =====
-- internal/auth/auth.go: the services that are monitored, and their documents.
-- A map is `none` when it is nil, and its pairs otherwise, in the order of the keys, in which
-- encoding/json writes them. `IntText` is how it writes and reads integers.
pub mod RoundTrip
pub mod Client
pub mod Reads
pub mod Replies
pub mod States
use i_drac_telemetry_referen.Common.{
  Bool, true, false, ◌≡◌, ◌||◌, Option, none, some, List, [], ◌∷◌, String, if◌then◌else◌,
}
use i_drac_telemetry_referen.Common.Dict
use i_drac_telemetry_referen.Common.Dict.{Dict}
use i_drac_telemetry_referen.Common.Int.{ℤ, pos}
use i_drac_telemetry_referen.Common.Text.{◌==◌}
use i_drac_telemetry_referen.Json.{Json, Fields, null, bool, num, str, obj, end, field, same_key}
use i_drac_telemetry_referen.Json.Structs.{◌>>=◌, set_text, read_text, read_struct, read_fields}

pub record IntText : Type 0 where
  pub print_int : ℤ → String
  pub read_int : String → Option ℤ
  pub read-print : (i : ℤ) → read_int (print_int i) ≡ some i

pub record Service : Type 0 where
  pub service_type : ℤ
  pub ip : String
  pub auth_type : ℤ
  pub auth : Option (Dict String)
  pub state : String

pub record ServiceItem : Type 0 where
  pub service : Service
  pub service_ip : String
  pub systemtypedesc : String
  pub is_forcefulshutdown : Bool
  pub timeout : ℤ

pub record SplunkConfig : Type 0 where
  pub url : String
  pub key : String
  pub index : String

pub record ValveState : Type 0 where
  pub ip : String
  pub v_state1 : String
  pub v_state2 : String

pub record Login : Type 0 where
  pub username : String
  pub password : String
  pub jwt_version : ℤ

abbrev pub auth_type_username_password : ℤ
auth_type_username_password = pos 1

abbrev pub auth_type_bearer_token : ℤ
auth_type_bearer_token = pos 3

-- The kinds of service of internal/disc
abbrev pub msm : ℤ
msm = pos 1

abbrev pub ec : ℤ
ec = pos 2

abbrev pub empty_service : Service
empty_service = record { service_type = pos 0; ip = ""; auth_type = pos 0; auth = none; state = "" }

abbrev pub empty_service_item : ServiceItem
empty_service_item = record {
  service = empty_service;
  service_ip = "";
  systemtypedesc = "";
  is_forcefulshutdown = false;
  timeout = pos 0;
}

abbrev pub empty_login : Login
empty_login = record { username = ""; password = ""; jwt_version = pos 0 }

-- A map of strings
unfoldable pub map_fields : Dict String → Fields
map_fields [] = end
map_fields ((k, v) ∷ m) = field k (str v) (map_fields m)

abbrev pub map_json : Option (Dict String) → Json
map_json none = null
map_json (some m) = obj (map_fields m)

unfoldable pub read_map : Dict String → Fields → Option (Dict String)
read_map m end = some m
read_map m (field k j rest) = read_text j >>= λ v. read_map (Dict.put m k v) rest

abbrev pub entries_of : Option (Dict String) → Dict String
entries_of none = []
entries_of (some m) = m

abbrev pub set_map {ℓ} :
    {A : Type ℓ} → Option (Dict String) → (Option (Dict String) → A) → Json → Option A
set_map m set null = some (set none)
set_map m set (obj fields) = read_map (entries_of m) fields >>= λ m'. some (set (some m'))
set_map m set _ = none

abbrev set_bool {ℓ} : {A : Type ℓ} → A → (Bool → A) → Json → Option A
set_bool a set null = some a
set_bool a set (bool b) = some (set b)
set_bool a set _ = none

module _ (ints : IntText) where
  open ints use {print_int, read_int}

  abbrev pub set_int {ℓ} : {A : Type ℓ} → A → (ℤ → A) → Json → Option A
  set_int a set null = some a
  set_int a set (num text) = read_int text >>= λ i. some (set i)
  set_int a set _ = none

  -- The fields of a service, before others
  unfoldable pub service_fields : Service → Fields → Fields
  unfolding map_fields
  service_fields s rest = field "serviceType" (num (print_int s.service_type)) (
      field "ip" (str s.ip) (
        field "authType" (num (print_int s.auth_type))
          (field "auth" (map_json s.auth) (field "state" (str s.state) rest))))

  unfoldable pub marshal_service : Service → Json
  unfolding service_fields
  marshal_service s = obj (service_fields s end)

  -- The fields of the embedded service stand among those of the item.
  unfoldable pub marshal_service_item : ServiceItem → Json
  unfolding service_fields
  marshal_service_item si = obj (
      service_fields si.service (
        field "serviceIp" (str si.service_ip) (
          field "systemtypedesc" (str si.systemtypedesc) (
            field "isforcefulshutdown" (bool si.is_forcefulshutdown)
              (field "timeout" (num (print_int si.timeout)) end)))))

  abbrev pub marshal_login : Login → Json
  marshal_login l = obj (
      field "username" (str l.username) (
        field "password" (str l.password) (field "jwtVersion" (num (print_int l.jwt_version)) end)))

  unfoldable pub set_service : Service → String → Json → Option Service
  unfolding same_key read_map
  set_service s key j =
      if same_key key "serviceType"
      then set_int s (λ i. record s { service_type = i }) j
      else if same_key key "ip"
      then set_text s (λ v. record s { ip = v }) j
      else if same_key key "authType"
      then set_int s (λ i. record s { auth_type = i }) j
      else if same_key key "auth"
      then set_map s.auth (λ m. record s { auth = m }) j
      else if same_key key "state"
      then set_text s (λ v. record s { state = v }) j
      else some s

  unfoldable pub read_service : Json → Option Service
  unfolding set_service read_fields
  read_service j = read_struct set_service empty_service j

  unfoldable pub set_service_item : ServiceItem → String → Json → Option ServiceItem
  unfolding set_service
  set_service_item si key j =
      if same_key key "serviceIp"
      then set_text si (λ v. record si { service_ip = v }) j
      else if same_key key "systemtypedesc"
      then set_text si (λ v. record si { systemtypedesc = v }) j
      else if same_key key "isforcefulshutdown"
      then set_bool si (λ b. record si { is_forcefulshutdown = b }) j
      else if same_key key "timeout"
      then set_int si (λ i. record si { timeout = i }) j
      else (set_service si.service key j >>= λ s. some (record si { service = s }))

  unfoldable pub read_service_item : Json → Option ServiceItem
  unfolding set_service_item read_fields
  read_service_item j = read_struct set_service_item empty_service_item j
