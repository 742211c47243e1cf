-- ===== src/DbDiscAuth/Steps.antt =====
-- cmd/dbdiscauth/dbdiscauth.go: the program by steps, each a command or a broadcast that was started.
use i_drac_telemetry_referen.Common.{ℕ, ◌≡◌, Option, List, ◌∷◌, ◌++◌, String}
use i_drac_telemetry_referen.Json.{JsonText}
use i_drac_telemetry_referen.Wire.{Envelope}
use i_drac_telemetry_referen.Auth.{IntText, Service}
use i_drac_telemetry_referen.Auth.Client.{broadcast_service}
use i_drac_telemetry_referen.DbDiscAuth.{MySql, Program, goes_on, handle_command}

module _ (json : JsonText) (sql : MySql json.Text) (fails : ℕ → Option String)
    (ints : IntText) where
  pub data Step : Program json sql → Program json sql → Type 0 where
    command :
        (env : Envelope) {p p' : Program json sql}
        → handle_command json sql fails ints p env ≡ goes_on p'
        → Step p p'
    -- The broadcasts that wait come in any order.
    broadcast :
        (before after : List Service) (service : Service) {p : Program json sql}
        → p.pending ≡ before ++ service ∷ after
        → Step p (record p {
          bus = (broadcast_service json fails ints p.bus service).0;
          pending = before ++ after;
        })

  pub data Reaches : Program json sql → Program json sql → Type 0 where
    here : {p : Program json sql} → Reaches p p
    after : {p q r : Program json sql} → Reaches p q → Step q r → Reaches p r
