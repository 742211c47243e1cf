-- ===== src/DbDiscAuth/Good.antt =====
-- cmd/dbdiscauth/dbdiscauth.go: what the commands keep of the table.
use i_drac_telemetry_referen.Common.{
  ℕ, Bool, true, false, ◌≡◌, refl, sym, subst, Option, none, some, List, [], ◌∷◌, ◌++◌, String, All,
  All-append, if◌then◌else◌, inl, inr, Option-cases,
}
use i_drac_telemetry_referen.Common.Text.{◌==◌}
use i_drac_telemetry_referen.Json.{JsonText}
use i_drac_telemetry_referen.Json.Results.{Gives}
use i_drac_telemetry_referen.Wire.{Envelope}
use i_drac_telemetry_referen.Auth.{IntText, Service, SplunkConfig, map_json}
use i_drac_telemetry_referen.DbDiscAuth.{
  Row, MySql, Program, Outcome, goes_on, exits, service_of_row, scanned, row_of, broadcast_later,
  added, hec_added, with_payload, service_in, config_in, get_instances_from_db, add_service_to_db,
  splunk_add_hec_to_db, delete_service_from_db, get_hec_instances_from_db, resend_services,
  handle_command,
}
use i_drac_telemetry_referen.DbDiscAuth.Steps.{command, broadcast, Reaches, here, after}
use i_drac_telemetry_referen.DbDiscAuth.Table.{without, All-without, IsTable, set_map-Gives}

module _ {ℓ κ} {A : Type ℓ} (P : A → Type κ) where
  by_if : (b : Bool) (x y : A) → P x → P y → P (if b then x else y)
  by_if true x y hx hy = hx
  by_if false x y hx hy = hy

module _ (json : JsonText) (sql : MySql json.Text) where
  broadcast_later-db :
      (p : Program json sql) (x : sql.Db × Option (List Service))
      → (broadcast_later json sql p x).db ≡ x.0
  broadcast_later-db p (db, none) = refl
  broadcast_later-db p (db, some services) = refl

  module _ (fails : ℕ → Option String) (ints : IntText) where
    pub added-db :
        (p : Program json sql) (s : Service) (x : sql.Db × Option String)
        → (added json sql fails ints p s x).db ≡ x.0
    added-db p s (db, none) = refl
    added-db p s (db, some e) = refl

    hec_added-db :
        (p : Program json sql) (c : SplunkConfig) (x : sql.Db × Option String)
        → (hec_added json sql fails ints p c x).db ≡ x.0
    hec_added-db p c (db, none) = refl
    hec_added-db p c (db, some e) = refl

module _ (json : JsonText) (sql : MySql json.Text) (table : IsTable sql) where
  open json use {Text, parse-print}
  open table use {
    rows, same_ip, rows-select_services, rows-insert_service, rows-insert_fails,
    rows-delete_service, rows-delete_fails, rows-select_hec, rows-insert_hec,
  }

  -- The text of the secrets can be read.
  abbrev pub IsReadable : Row Text → Type 0
  IsReadable r = Gives (service_of_row json sql r) (λ _. Unit)

  -- All rows can be read.
  abbrev pub IsGood : sql.Db → Type 0
  IsGood db = All IsReadable (rows db)

  row_of-IsReadable : (s : Service) → IsReadable (row_of json sql s)
  unfolding row_of service_of_row
  row_of-IsReadable s =
      rw (parse-print (map_json s.auth))
        (set_map-Gives (scanned json sql (row_of json sql s)) s.auth)

  same_rows-IsGood : (db db' : sql.Db) → rows db' ≡ rows db → IsGood db → IsGood db'
  same_rows-IsGood db db' e good = subst (All IsReadable) (sym e) good

  inserted-IsGood :
      (db : sql.Db) (s : Service) → IsGood db → IsGood (sql.insert_service db (row_of json sql s)).0
  inserted-IsGood db s good = elim (Option-cases (sql.insert_service db (row_of json sql s)).1) [
    | inl e ↦ with_row (rows-insert_service db (row_of json sql s) e)
    | inr (m, e) ↦ elim (rows-insert_fails db (row_of json sql s) m e) [
      | inl same ↦ same_rows-IsGood db _ same good
      | inr there ↦ with_row there
    ]
  ]
    where
      with_row :
          rows (sql.insert_service db (row_of json sql s)).0 ≡ rows db ++ row_of json sql s ∷ []
          → IsGood (sql.insert_service db (row_of json sql s)).0
      with_row e =
          subst (All IsReadable) (sym e) (
            All-append IsReadable (rows db) (row_of json sql s ∷ []) good (row_of-IsReadable s, tt))

  deleted-IsGood : (db : sql.Db) (ip : String) → IsGood db → IsGood (sql.delete_service db ip).0
  deleted-IsGood db ip good = elim (Option-cases (sql.delete_service db ip).1) [
    | inl e ↦ without_rows (rows-delete_service db ip e)
    | inr (m, e) ↦ elim (rows-delete_fails db ip m e) [
      | inl same ↦ same_rows-IsGood db _ same good
      | inr gone ↦ without_rows gone
    ]
  ]
    where
      without_rows :
          rows (sql.delete_service db ip).0 ≡ without same_ip ip (rows db)
          → IsGood (sql.delete_service db ip).0
      without_rows e =
          subst (All IsReadable) (sym e) (All-without same_ip IsReadable ip (rows db) good)

  module _ (fails : ℕ → Option String) (ints : IntText) where
    abbrev IsGoodAfter : Outcome json sql → Type 0
    IsGoodAfter (goes_on p) = IsGood p.db
    IsGoodAfter exits = Unit

    abbrev run : Program json sql → Envelope → Outcome json sql
    run = handle_command json sql fails ints

    with_payload-IsGood :
        {A : Type 0} (p : Program json sql) (handle : Program json sql → A → Program json sql)
        (o : Option A)
        → ((a : A) → IsGood (handle p a).db)
        → IsGood p.db
        → IsGood (with_payload json sql fails ints p handle o).db
    with_payload-IsGood p handle none h good = good
    with_payload-IsGood p handle (some a) h good = h a

    resend_services-IsGood :
        (p : Program json sql) → IsGood p.db → IsGood (resend_services json sql p).db
    unfolding resend_services
    resend_services-IsGood p good =
        subst IsGood (sym (broadcast_later-db json sql p (get_instances_from_db json sql p.db)))
          (same_rows-IsGood p.db _ (rows-select_services p.db) good)

    pub add_service_to_db-IsGood :
        (p : Program json sql) (s : Service)
        → IsGood p.db
        → IsGood (add_service_to_db json sql fails ints p s).db
    unfolding add_service_to_db
    add_service_to_db-IsGood p s good =
        subst IsGood (sym (added-db json sql fails ints p s _)) (inserted-IsGood p.db s good)

    splunk_add_hec_to_db-IsGood :
        (p : Program json sql) (c : SplunkConfig)
        → IsGood p.db
        → IsGood (splunk_add_hec_to_db json sql fails ints p c).db
    unfolding splunk_add_hec_to_db
    splunk_add_hec_to_db-IsGood p c good =
        subst IsGood (sym (hec_added-db json sql fails ints p c _))
          (same_rows-IsGood p.db _ (rows-insert_hec p.db c) good)

    handle_command-IsGood :
        (p : Program json sql) (env : Envelope) → IsGood p.db → IsGoodAfter (run p env)
    unfolding handle_command delete_service_from_db get_hec_instances_from_db
    handle_command-IsGood p env good =
        by_if IsGoodAfter (env.type == "resend") _ _ (resend_services-IsGood p good) (
          by_if IsGoodAfter (env.type == "addservice") _ _
            (with_payload-IsGood p (add_service_to_db json sql fails ints)
              (service_in json sql fails ints env) (λ s. add_service_to_db-IsGood p s good) good)
            (by_if IsGoodAfter (env.type == "deleteservice") _ _
              (with_payload-IsGood p (delete_service_from_db json sql)
                (service_in json sql fails ints env) (λ s. deleted-IsGood p.db s.ip good) good)
              (by_if IsGoodAfter (env.type == "splunkaddhec") _ _
                (with_payload-IsGood p (splunk_add_hec_to_db json sql fails ints)
                  (config_in json sql fails ints env) (λ c. splunk_add_hec_to_db-IsGood p c good)
                  good)
                (by_if IsGoodAfter (env.type == "gethecconfig") _ _
                  (same_rows-IsGood p.db _ (rows-select_hec p.db) good)
                  (by_if IsGoodAfter (env.type == "terminate") _ _ tt good)))))

    -- Whatever commands and broadcasts come, the rows of the table can all be read still.
    pub Reaches-IsGood :
        {p q : Program json sql} → Reaches json sql fails ints p q → IsGood p.db → IsGood q.db
    Reaches-IsGood here good = good
    Reaches-IsGood (after steps (command env {p = r} e)) good =
        subst IsGoodAfter e (handle_command-IsGood r env (Reaches-IsGood steps good))
    Reaches-IsGood (after steps (broadcast xs ys s e)) good = Reaches-IsGood steps good
