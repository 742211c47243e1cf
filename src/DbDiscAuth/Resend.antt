-- ===== src/DbDiscAuth/Resend.antt =====
-- cmd/dbdiscauth/dbdiscauth.go: the services that are broadcast again are those of the table.
use i_drac_telemetry_referen.Common.{
  ℕ, ◌≡◌, ◌∙◌, refl, sym, ap, subst, Option, none, some, List, [], ◌∷◌, ◌++◌, map, String, All, Any,
  All-perm, Any-perm, inl, inr,
}
use i_drac_telemetry_referen.Json.{JsonText}
use i_drac_telemetry_referen.Json.Structs.{◌>>=◌}
use i_drac_telemetry_referen.Json.Results.{Gives, Gives-bind, result_of_Gives}
use i_drac_telemetry_referen.Wire.{Envelope, empty_envelope}
use i_drac_telemetry_referen.Auth.{IntText, Service, marshal_service, map_json}
use i_drac_telemetry_referen.Auth.RoundTrip.{
  Distinct, read_service-marshal_service, set_map-map_json,
}
use i_drac_telemetry_referen.DbDiscAuth.{
  Row, MySql, Program, Outcome, goes_on, service_of_row, services_of_rows, scanned, row_of,
  broadcast_later, read_rows, get_instances_from_db, resend_services, add_service_to_db,
  handle_command, with_payload,
}
use i_drac_telemetry_referen.DbDiscAuth.Steps.{Reaches}
use i_drac_telemetry_referen.DbDiscAuth.Table.{IsTable}
use i_drac_telemetry_referen.DbDiscAuth.Good.{
  IsGood, IsReadable, Reaches-IsGood, add_service_to_db-IsGood, added-db,
}
use mathlib.Core.List.{Permᴰ}

map-perm {ℓ κ} :
    {A : Type ℓ} {B : Type κ} (f : A → B) {xs ys : List A}
    → Permᴰ xs ys
    → Permᴰ (map f xs) (map f ys)
map-perm f Permᴰ.nil = Permᴰ.nil
map-perm f (Permᴰ.cons e d) = Permᴰ.cons (ap f e) (map-perm f d)
map-perm f (Permᴰ.swap e e') = Permᴰ.swap (ap f e) (ap f e')
map-perm f (Permᴰ.trans d d') = Permᴰ.trans (map-perm f d) (map-perm f d')

Any-append_right {ℓ} : {A : Type ℓ} (P : A → Type 0) (xs ys : List A) → Any P ys → Any P (xs ++ ys)
Any-append_right P [] ys h = h
Any-append_right P (x ∷ xs) ys h = inr (Any-append_right P xs ys h)

Any-last {ℓ κ} :
    {A : Type ℓ} {B : Type κ} (P : B → Type 0) (f : A → B) (xs : List A) (x : A)
    → P (f x)
    → Any P (map f (xs ++ x ∷ []))
Any-last P f [] x h = inl h
Any-last P f (y ∷ ys) x h = inr (Any-last P f ys x h)

Any-map-some :
    (s : Service) (ss : List Service) → Any (λ o. o ≡ some s) (map some ss) → Any (λ x. x ≡ s) ss
Any-map-some s [] h = h
Any-map-some s (x ∷ xs) (inl e) = inl (cc)
Any-map-some s (x ∷ xs) (inr h) = inr (Any-map-some s xs h)

module _ (json : JsonText) (sql : MySql json.Text) (table : IsTable sql) where
  open json use {Text}
  open json use {parse-print}
  open table use {rows, select_services-rows, rows-insert_service}

  services_of_rows-Gives :
      (rs : List (Row Text))
      → All (IsReadable json sql table) rs
      → Gives (services_of_rows json sql rs) (λ ss. map some ss ≡ map (service_of_row json sql) rs)
  unfolding services_of_rows
  services_of_rows-Gives [] h = refl
  services_of_rows-Gives (r ∷ rs) h =
      Gives-bind (λ _. Unit) _ (service_of_row json sql r) _ h.0
        λ s e _.
          Gives-bind (λ ss. map some ss ≡ map (service_of_row json sql) rs) _
            (services_of_rows json sql rs) _ (services_of_rows-Gives rs h.1)
            λ ss _ same.
              ap (λ o. o ∷ map some ss) (sym e) ∙ ap (◌∷◌ (service_of_row json sql r)) same

  -- The services of a program that it will broadcast, behind those that wait already
  abbrev pub IsListed : Program json sql → Program json sql → Type 0
  IsListed p q =
      (services : List Service) × (q.pending ≡ p.pending ++ services)
      × Permᴰ (map some services) (map (service_of_row json sql) (rows p.db))

  broadcast_later-pending :
      (p : Program json sql) (x : sql.Db × Option (List Service)) (ss : List Service)
      → x.1 ≡ some ss
      → (broadcast_later json sql p x).pending ≡ p.pending ++ ss
  broadcast_later-pending p (db, none) ss e = cc
  broadcast_later-pending p (db, some ss') ss e =
      let same : ss' ≡ ss = cc in ap (λ xs. p.pending ++ xs) same

  resend_services-IsListed :
      (p : Program json sql) (rs : List (Row Text))
      → IsGood json sql table p.db
      → (sql.select_services p.db).1 ≡ some rs
      → IsListed p (resend_services json sql p)
  unfolding resend_services get_instances_from_db
  resend_services-IsListed p rs good e =
      let there = select_services-rows p.db rs e in
      let (ss, read, same) =
        result_of_Gives (λ ss. map some ss ≡ map (service_of_row json sql) rs)
          (services_of_rows json sql rs)
          (services_of_rows-Gives rs (All-perm (IsReadable json sql table) there good)) in
      (
        ss,
        broadcast_later-pending p (read_rows json sql (sql.select_services p.db)) ss
            (ap (λ o. o >>= services_of_rows json sql) e ∙ read),
        subst (λ os. Permᴰ os (map (service_of_row json sql) (rows p.db))) (sym same)
            (map-perm (service_of_row json sql) there),
      )

  module _ (fails : ℕ → Option String) (ints : IntText) where
    abbrev run : Program json sql → Envelope → Outcome json sql
    run = handle_command json sql fails ints

    abbrev pub resend_envelope : Envelope
    resend_envelope = record empty_envelope { type = "resend" }

    -- After any commands and broadcasts, from a table whose rows can be read: the command resend, where the query succeeds, starts just the broadcasts of the services that
    -- the rows of the table hold, behind those that wait.
    pub resend-IsListed :
        {p q : Program json sql} (rs : List (Row Text))
        → Reaches json sql fails ints p q
        → IsGood json sql table p.db
        → (sql.select_services q.db).1 ≡ some rs
        → (q' : Program json sql) × (run q resend_envelope ≡ goes_on q') × IsListed q q'
    unfolding handle_command
    resend-IsListed {p} {q} rs steps good e = (
      resend_services json sql q,
      refl,
      resend_services-IsListed q rs (Reaches-IsGood json sql table fails ints steps good) e,
    )

    service_of_row-row_of :
        (s : Service)
        → Distinct s.auth
        → service_of_row json sql (row_of json sql s) ≡ some (record s { state = "" })
    unfolding service_of_row row_of
    service_of_row-row_of s distinct =
        rw (parse-print (map_json s.auth))
          (set_map-map_json ints (scanned json sql (row_of json sql s)) s.auth distinct)

    rows-add_service_to_db :
        (p : Program json sql) (s : Service)
        → (sql.insert_service p.db (row_of json sql s)).1 ≡ none
        → rows (add_service_to_db json sql fails ints p s).db ≡ rows p.db ++ row_of json sql s ∷ []
    unfolding add_service_to_db
    rows-add_service_to_db p s inserted =
        ap rows (added-db json sql fails ints p s (sql.insert_service p.db (row_of json sql s)))
        ∙ rows-insert_service p.db (row_of json sql s) inserted

    listed-there :
        (p q : Program json sql) (s : Service)
        → IsListed p q
        → Any (λ o. o ≡ some s) (map (service_of_row json sql) (rows p.db))
        → Any (λ x. x ≡ s) q.pending
    listed-there p q s (ss, e, same) there = subst (Any (λ x. x ≡ s)) (sym e) (
        Any-append_right (λ x. x ≡ s) p.pending ss
          (Any-map-some s ss (Any-perm (λ o. o ≡ some s) same there)))

    abbrev pub add_envelope : Service → Envelope
    add_envelope s = record empty_envelope {
      type = "addservice";
      payload = some (marshal_service ints s);
    }

    -- From a table whose rows can all be read: a service whose secrets name no key twice and which
    -- the database takes is, by the commands addservice and resend where the query succeeds, among
    -- the services to be broadcast, with its secrets and without its state.
    pub add_service-resend :
        (p : Program json sql) (s : Service) (rs : List (Row Text))
        → Distinct s.auth
        → IsGood json sql table p.db
        → (sql.insert_service p.db (row_of json sql s)).1 ≡ none
        → (sql.select_services (add_service_to_db json sql fails ints p s).db).1 ≡ some rs
        → (q : Program json sql) × (run p (add_envelope s)
            ≡ goes_on (add_service_to_db json sql fails ints p s))
          × (run (add_service_to_db json sql fails ints p s) resend_envelope ≡ goes_on q)
          × Any (λ x. x ≡ record s { state = "" }) q.pending
    unfolding handle_command
    add_service-resend p s rs distinct good inserted e =
        let p' = add_service_to_db json sql fails ints p s in
        let stored = record s { state = "" } in
        (
          resend_services json sql p',
          ap
              (λ o.
                goes_on
                  (with_payload json sql fails ints p (add_service_to_db json sql fails ints) o))
              (read_service-marshal_service ints s distinct),
          refl,
          listed-there p' (resend_services json sql p') stored
              (resend_services-IsListed p' rs
                (add_service_to_db-IsGood json sql table fails ints p s good) e)
              (subst (λ xs. Any (λ o. o ≡ some stored) (map (service_of_row json sql) xs))
                (sym (rows-add_service_to_db p s inserted))
                (Any-last (λ o. o ≡ some stored) (service_of_row json sql) (rows p.db)
                  (row_of json sql s) (service_of_row-row_of s distinct))),
        )
