-- ===== src/Tests/DbDiscAuth.antt =====
-- cmd/dbdiscauth: a table in memory, and instances of the theorems.
use i_drac_telemetry_referen.Common.{
  Bool, true, false, ◌||◌, ◌≡◌, refl, Option, none, some, List, [], ◌∷◌, ◌++◌, String, Any, subst,
  inl,
}
use i_drac_telemetry_referen.Common.Int.{pos}
use i_drac_telemetry_referen.Common.Dict
use i_drac_telemetry_referen.Common.Text.{◌==◌}
use i_drac_telemetry_referen.Json.{Json}
use i_drac_telemetry_referen.Auth.{Service, SplunkConfig}
use i_drac_telemetry_referen.Auth.Client.{broadcast_service}
use i_drac_telemetry_referen.DbDiscAuth.{
  Row, MySql, Program, goes_on, row_of, service_of_row, resend_services, handle_command,
  add_service_to_db, get_hec_instances_from_db,
}
use i_drac_telemetry_referen.DbDiscAuth.Steps.{Reaches, here, after, command, broadcast}
use i_drac_telemetry_referen.DbDiscAuth.Table.{IsTable, without}
use i_drac_telemetry_referen.DbDiscAuth.Resend.{
  IsListed, resend_envelope, resend-IsListed, add_envelope, add_service-resend,
}
use i_drac_telemetry_referen.Tests.Fixtures.{trees, unary_text}
use mathlib.Core.List.{Permᴰ}
use mathlib.Core.List

abbrev Rows : Type 0
Rows = List (Row Json)

unfoldable has : Rows → String → Bool
has [] ip = false
has (r ∷ rs) ip = r.ip == ip || has rs ip

abbrev insert_if : Bool → Rows → Row Json → Rows × Option String
insert_if true rs r = (rs, some "Duplicate entry")
insert_if false rs r = (rs ++ r ∷ [], none)

unfoldable insert : Rows → Row Json → Rows × Option String
unfolding has
insert rs r = insert_if (has rs r.ip) rs r

abbrev memory : MySql Json
memory = record {
  Db = Rows × List SplunkConfig;
  select_services = λ db. (db, some db.0);
  select_hec = λ db. (db, some db.1);
  insert_service = λ db r. (((insert db.0 r).0, db.1), (insert db.0 r).1);
  delete_service = λ db ip. ((without ◌==◌ ip db.0, db.1), none);
  insert_hec = λ db c. ((db.0, db.1 ++ c ∷ []), none);
}

insert_if-accepted :
    (b : Bool) (rs : Rows) (r : Row Json)
    → has rs r.ip ≡ b
    → (insert_if b rs r).1 ≡ none
    → (insert_if b rs r).0 ≡ rs ++ r ∷ []
insert_if-accepted true rs r e h = cc
insert_if-accepted false rs r e h = refl

insert_if-refused :
    (b : Bool) (rs : Rows) (r : Row Json) (e : String)
    → (insert_if b rs r).1 ≡ some e
    → (insert_if b rs r).0 ≡ rs
insert_if-refused true rs r e h = refl
insert_if-refused false rs r e h = cc

insert-accepted :
    (rs : Rows) (r : Row Json) → (insert rs r).1 ≡ none → (insert rs r).0 ≡ rs ++ r ∷ []
unfolding insert
insert-accepted rs r h = insert_if-accepted (has rs r.ip) rs r refl h

insert-refused :
    (rs : Rows) (r : Row Json) (e : String) → (insert rs r).1 ≡ some e → (insert rs r).0 ≡ rs
unfolding insert
insert-refused rs r e h = insert_if-refused (has rs r.ip) rs r e h

same_rows : (rs qs : Rows) → some qs ≡ some rs → Permᴰ rs qs
same_rows rs qs e = let equal : qs ≡ rs = cc in subst (λ xs. Permᴰ xs qs) equal (List.Permᴰ.refl qs)

not_failed : {A : Type 0} (x y : A) (e : String) → none ≡ some e → x ≡ y
not_failed x y e h = cc

abbrev memory_table : IsTable memory
memory_table = record {
  rows = λ db. db.0;
  same_ip = ◌==◌;
  rows-select_services = λ db. refl;
  select_services-rows = λ db rs e. same_rows rs db.0 e;
  rows-insert_service = λ db r. insert-accepted db.0 r;
  rows-insert_fails = λ db r e h. inl (insert-refused db.0 r e h);
  rows-delete_service = λ db ip e. refl;
  rows-delete_fails = λ db ip e h. inl (not_failed _ _ e h);
  rows-select_hec = λ db. refl;
  rows-insert_hec = λ db c. refl;
}

abbrev idrac : Service
idrac = record {
  service_type = pos 1;
  ip = "10.0.0.1";
  auth_type = pos 1;
  auth = some (("password", "calvin") ∷ ("username", "root") ∷ []);
  state = "Running";
}

abbrev empty_program : Program trees memory
empty_program = record { db = ([], []); bus = record { posted = []; sends = 0 }; pending = [] }

abbrev one_service : Program trees memory
one_service = record empty_program { db = (row_of trees memory idrac ∷ [], []) }

-- A row of the other table makes the query of getHECInstancesFromDB fail.
no_hec :
    (get_hec_instances_from_db trees memory
      ([], record { url = "u"; key = "k"; index = "i" } ∷ [])).1
    ≡ none
unfolding get_hec_instances_from_db
no_hec = refl

abbrev resent : Program trees memory
resent = resend_services trees memory one_service

abbrev broadcast_again : Program trees memory
broadcast_again = record resent {
  bus = (broadcast_service trees (λ n. none) unary_text resent.bus (record idrac { state = "" })).0;
  pending = [];
}

-- A resend, and the broadcast that it has started
resend_steps : Reaches trees memory (λ n. none) unary_text one_service broadcast_again
unfolding handle_command resend_services row_of service_of_row Dict.put
resend_steps =
    after
      (after here (command (resend_envelope trees memory memory_table (λ n. none) unary_text) refl))
      (broadcast [] [] (record idrac { state = "" }) refl)

resend-IsListed_example :
    (q' : Program trees memory) × (handle_command trees memory
        (λ n. none)
        unary_text
        broadcast_again
        (resend_envelope trees memory memory_table (λ n. none) unary_text)
      ≡ goes_on q')
    × IsListed trees memory memory_table broadcast_again q'
unfolding row_of service_of_row resend_services
resend-IsListed_example =
    resend-IsListed trees memory memory_table (λ n. none) unary_text
      (row_of trees memory idrac ∷ []) resend_steps (tt, tt) refl

add_service-resend_example :
    (q : Program trees memory) × (handle_command trees memory
        (λ n. none)
        unary_text
        empty_program
        (add_envelope trees memory memory_table (λ n. none) unary_text idrac)
      ≡ goes_on (add_service_to_db trees memory (λ n. none) unary_text empty_program idrac))
    × (handle_command trees memory
          (λ n. none)
          unary_text
          (add_service_to_db trees memory (λ n. none) unary_text empty_program idrac)
          (resend_envelope trees memory memory_table (λ n. none) unary_text)
        ≡ goes_on q)
    × Any (λ x. x ≡ record idrac { state = "" }) q.pending
unfolding insert row_of add_service_to_db Dict.get
add_service-resend_example =
    add_service-resend trees memory memory_table (λ n. none) unary_text empty_program idrac
      (row_of trees memory idrac ∷ []) (refl, (refl, tt)) tt refl refl
