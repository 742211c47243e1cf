-- ===== src/DbDiscAuth/Table.antt =====
-- cmd/dbdiscauth/dbdiscauth.go: what the program keeps of its table.
-- `IsTable` is what the program relies on in MySQL: `same_ip` compares addresses as the collation of
-- the table does. A statement that fails has changed nothing, or what it was to change, where the
-- connection is lost after it.
use i_drac_telemetry_referen.Common.{
  Bool, true, false, ◌≡◌, Option, none, some, List, [], ◌∷◌, ◌++◌, String, All, ◌⊎◌, if◌then◌else◌,
}
use i_drac_telemetry_referen.Common.Dict
use i_drac_telemetry_referen.Common.Dict.{Dict}
use i_drac_telemetry_referen.Json.Results.{Gives, Gives-bind}
use i_drac_telemetry_referen.Auth.{Service, SplunkConfig, map_fields, map_json, set_map, read_map}
use i_drac_telemetry_referen.DbDiscAuth.{Row, MySql}
use mathlib.Core.List.{Permᴰ}

module _ {T : Type 0} (same_ip : String → String → Bool) where
  -- The rows that a DELETE leaves
  unfoldable pub without : String → List (Row T) → List (Row T)
  without ip [] = []
  without ip (r ∷ rs) = let rest = without ip rs in if same_ip r.ip ip then rest else r ∷ rest

  All-kept :
      (P : Row T → Type 0) (b : Bool) (r : Row T) (rest : List (Row T))
      → P r
      → All P rest
      → All P (if b then rest else r ∷ rest)
  All-kept P true r rest h hs = hs
  All-kept P false r rest h hs = (h, hs)

  pub All-without :
      (P : Row T → Type 0) (ip : String) (rs : List (Row T)) → All P rs → All P (without ip rs)
  unfolding without
  All-without P ip [] h = tt
  All-without P ip (r ∷ rs) h =
      All-kept P (same_ip r.ip ip) r (without ip rs) h.0 (All-without P ip rs h.1)

pub record IsTable {T : Type 0} (sql : MySql T) : Type 0 where
  pub rows : sql.Db → List (Row T)
  pub same_ip : String → String → Bool
  pub rows-select_services : (db : sql.Db) → rows (sql.select_services db).0 ≡ rows db
  pub select_services-rows :
      (db : sql.Db) (rs : List (Row T)) → (sql.select_services db).1 ≡ some rs → Permᴰ rs (rows db)
  pub rows-insert_service :
      (db : sql.Db) (r : Row T)
      → (sql.insert_service db r).1 ≡ none
      → rows (sql.insert_service db r).0 ≡ rows db ++ r ∷ []
  pub rows-insert_fails :
      (db : sql.Db) (r : Row T) (e : String)
      → (sql.insert_service db r).1 ≡ some e
      → (rows (sql.insert_service db r).0 ≡ rows db)
        ⊎ (rows (sql.insert_service db r).0 ≡ rows db ++ r ∷ [])
  pub rows-delete_service :
      (db : sql.Db) (ip : String)
      → (sql.delete_service db ip).1 ≡ none
      → rows (sql.delete_service db ip).0 ≡ without same_ip ip (rows db)
  pub rows-delete_fails :
      (db : sql.Db) (ip e : String)
      → (sql.delete_service db ip).1 ≡ some e
      → (rows (sql.delete_service db ip).0 ≡ rows db)
        ⊎ (rows (sql.delete_service db ip).0 ≡ without same_ip ip (rows db))
  pub rows-select_hec : (db : sql.Db) → rows (sql.select_hec db).0 ≡ rows db
  pub rows-insert_hec : (db : sql.Db) (c : SplunkConfig) → rows (sql.insert_hec db c).0 ≡ rows db

read_map-Gives : (before m : Dict String) → Gives (read_map before (map_fields m)) (λ _. Unit)
unfolding read_map map_fields
read_map-Gives before [] = tt
read_map-Gives before ((k, v) ∷ m) = read_map-Gives (Dict.put before k v) m

pub set_map-Gives :
    (set : Option (Dict String) → Service) (m : Option (Dict String))
    → Gives (set_map none set (map_json m)) (λ _. Unit)
set_map-Gives set none = tt
set_map-Gives set (some m) =
    Gives-bind (λ _. Unit) (λ _. Unit) (read_map [] (map_fields m)) _ (read_map-Gives [] m)
      λ _ _ _. tt
