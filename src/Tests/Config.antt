-- ===== src/Tests/Config.antt =====
-- internal/config: instances of the theorems.
use i_drac_telemetry_referen.Tests.Fixtures.{trees}
use i_drac_telemetry_referen.Common.{ℕ, ◌≡◌, refl, Option, none, some, String, [], ◌∷◌}
use i_drac_telemetry_referen.Common.Dict
use i_drac_telemetry_referen.Common.Dict.{Dict}
use i_drac_telemetry_referen.Json.{Json, str}
use i_drac_telemetry_referen.Service.{Bus}
use i_drac_telemetry_referen.Config.{Command, ConfigEntry, marshal_response}
use i_drac_telemetry_referen.Config.Client.{get_command, set_command, read_response}
use i_drac_telemetry_referen.Config.Answers.{success}
use i_drac_telemetry_referen.Config.Exchange.{Answered, get_after_set}

abbrev takes_all : ℕ → Option String
takes_all n = none

abbrev idle : Bus Json
idle = record { posted = []; sends = 0 }

-- A program whose state is one value.
abbrev cell : ConfigEntry Json
cell = record { set = λ s name v. (v, none); get = λ s name. (s, none); default = str "" }

abbrev entries : Dict (ConfigEntry Json)
entries = ("kafkaBroker", cell) ∷ []

abbrev setting : Command
setting = set_command "/configui" "kafkaBroker" (str "kafka:9092")

set_then_get :
    Answered entries trees takes_all
      (str "")
      idle
      setting
      (str "kafka:9092")
      (marshal_response (success "set" "" (str "kafka:9092")))
    × (Answered entries trees takes_all
        (str "kafka:9092")
        idle
        (get_command "/configui" "kafkaBroker")
        (str "kafka:9092")
        (marshal_response (success "get" "" (str "kafka:9092"))))
    × (read_response (some (marshal_response (success "get" "" (str "kafka:9092"))))
        ≡ some (success "get" "" (str "kafka:9092")))
unfolding Dict.get
set_then_get =
    get_after_set entries trees takes_all (str "") idle "/configui" "kafkaBroker" cell refl idle
      (str "kafka:9092") refl refl
