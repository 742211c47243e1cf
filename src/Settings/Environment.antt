-- ===== src/Settings/Environment.antt =====
-- cmd/*: what the environment makes of each setting of a program.
use i_drac_telemetry_referen.Common.{
  Bool, true, false, ◌≡◌, ◌∙◌, refl, sym, ap, Option, some, List, [], ◌∷◌, String, if◌then◌else◌,
  inl, inr, Bool-cases, if_same,
}
use i_drac_telemetry_referen.Common.Dict
use i_drac_telemetry_referen.Common.Dict.{Dict, get-put, get-put_same}
use i_drac_telemetry_referen.Common.Text.{◌==◌}
use i_drac_telemetry_referen.Json.{str}
use i_drac_telemetry_referen.Settings.{
  Variables, read_env, dbdiscauth_env, dbdiscauth_variables, with_host_port, is_property, done,
  config_set, config_get, or_empty_text,
}

-- The last variable for a key that is not empty, or else the value before
unfoldable pub last_set : (String → String) → Variables → String → Option String → Option String
last_set getenv [] key before = before
last_set getenv ((variable, k) ∷ rest) key before =
    last_set getenv rest key (
      if k == key then if getenv variable == "" then before else some (getenv variable) else before)

pub get-read_env :
    (getenv : String → String) (variables : Variables) (settings : Dict String) (key : String)
    → Dict.get (read_env getenv variables settings) key
      ≡ last_set getenv variables key (Dict.get settings key)
unfolding read_env last_set
get-read_env getenv [] settings key = refl
get-read_env getenv ((variable, k) ∷ rest) settings key =
    get-read_env getenv rest _ key ∙ ap (last_set getenv rest key) by_test
  where
    by_test :
        Dict.get
          (if getenv variable == "" then settings else Dict.put settings k (getenv variable))
          key
        ≡ (if k == key
            then if getenv variable == "" then Dict.get settings key else some (getenv variable)
            else Dict.get settings key)
    by_test = elim (Bool-cases (getenv variable == "")) [
      | inl e ↦ rw e (sym (if_same (k == key) (Dict.get settings key)))
      | inr e ↦ rw e (get-put settings k key (getenv variable))
    ]

get-with_host_port :
    (getenv : String → String) (settings : Dict String)
    → Dict.get (with_host_port getenv settings) "mysqlHostPort" ≡ (
        if getenv "MYSQL_HOST" == ""
        then Dict.get settings "mysqlHostPort"
        else some (getenv "MYSQL_HOST_PORT"))
get-with_host_port getenv settings = elim (Bool-cases (getenv "MYSQL_HOST" == "")) [
  | inl e ↦ rw e refl
  | inr e ↦ rw e (get-put_same settings "mysqlHostPort" (getenv "MYSQL_HOST_PORT"))
]

-- The port of the database of dbdiscauth follows its host: it is the variable of the port, empty or
-- not, if that of the host is set, and stays what it was otherwise.
pub dbdiscauth_env-port :
    (getenv : String → String) (settings : Dict String)
    → Dict.get (dbdiscauth_env getenv settings) "mysqlHostPort" ≡ (
        if getenv "MYSQL_HOST" == ""
        then Dict.get settings "mysqlHostPort"
        else some (getenv "MYSQL_HOST_PORT"))
unfolding dbdiscauth_env last_set
dbdiscauth_env-port getenv settings =
    get-read_env getenv (("MYSQL_DATABASE", "mysqlDBName") ∷ [])
      (with_host_port getenv (read_env getenv dbdiscauth_variables settings)) "mysqlHostPort"
    ∙ get-with_host_port getenv (read_env getenv dbdiscauth_variables settings)
    ∙ ap (λ port. if getenv "MYSQL_HOST" == "" then port else some (getenv "MYSQL_HOST_PORT"))
        (get-read_env getenv dbdiscauth_variables settings "mysqlHostPort")

-- A property of the program that is set to a text is read back as that text, and no other is changed.
pub config_get-config_set :
    (properties : List String) (settings : Dict String) (name : String) (v : String)
    → is_property properties name ≡ true
    → (settings' : Dict String) × (config_set properties settings name (str v) ≡ done settings')
      × ((q : String)
          → is_property properties q ≡ true
          → config_get properties settings' q
            ≡ (if name == q then some v else config_get properties settings q))
unfolding config_set config_get
config_get-config_set properties settings name v known = (
  Dict.put settings name v,
  rw known refl,
  λ q known_q. rw (known_q, get-put settings name q v) (by_test (name == q) q),
)
  where
    by_test :
        (b : Bool) (q : String)
        → some (or_empty_text (if b then some v else Dict.get settings q))
          ≡ (if b then some v else some (or_empty_text (Dict.get settings q)))
    by_test true q = refl
    by_test false q = refl
