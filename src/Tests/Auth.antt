-- ===== src/Tests/Auth.antt =====
-- internal/auth/auth.go: instances of the theorems.
use i_drac_telemetry_referen.Common.{◌≡◌, refl, none, some, List, [], ◌∷◌, ◌++◌, ◌⊎◌, inl, inr}
use i_drac_telemetry_referen.Common.Int.{pos}
use i_drac_telemetry_referen.Common.Dict
use i_drac_telemetry_referen.Json.{Json}
use i_drac_telemetry_referen.Wire.{Envelope, empty_envelope, encode_envelope}
use i_drac_telemetry_referen.Service.{BaseClient, new_base_client, decode_text}
use i_drac_telemetry_referen.Service.Typed.{texts}
use i_drac_telemetry_referen.Tests.Fixtures.{unary_text, trees}
use i_drac_telemetry_referen.Auth.{Service, empty_service, marshal_service, read_service}
use i_drac_telemetry_referen.Auth.Client.{get_service, update_service_state, is_service_state}
use i_drac_telemetry_referen.Auth.Replies.{IsPlain, get_service-texts}
use i_drac_telemetry_referen.Auth.States.{in_state, update_envelope, update_service_state-taken_if}

abbrev rack : Service
rack = record {
  service_type = pos 4;
  ip = "10.0.0.7";
  auth_type = pos 1;
  auth = some (("password", "calvin") ∷ ("username", "root") ∷ []);
  state = "Running";
}

abbrev heard : List (Service ⊎ Envelope)
heard =
    inr (record empty_envelope { type = "splunkaddhec" })
    ∷ inl rack
    ∷ inl (record rack { ip = "10.0.0.8"; auth = none })
    ∷ []

get_service-texts_example :
    get_service trees
      (λ n. none)
      unary_text
      (texts empty_service
        (read_service unary_text)
        trees
        (λ n. none)
        "service"
        (marshal_service unary_text)
        IsPlain
        heard)
    ≡ rack ∷ record rack { ip = "10.0.0.8"; auth = none } ∷ []
unfolding Dict.get
get_service-texts_example =
    get_service-texts trees (λ n. none) unary_text heard (refl, ((refl, (refl, tt)), (tt, tt)))

abbrev reader : BaseClient Json
reader =
    new_base_client (record { posted = []; sends = 0 }) "/queue/authorization/command"
      "/queue/authorization/reply." "redfishread"

update_service_state-taken_if_example :
    ((update_service_state trees
        (λ n. some "closed")
        unary_text
        reader
        "Running"
        "10.0.0.7").0.bus.posted
      ≡ [] ++ [])
    × ((update_service_state trees (λ n. some "closed") unary_text reader "Running" "10.0.0.7").1
        ≡ none)
    × (decode_text trees
          (λ n. some "closed")
          (encode_envelope
            (update_envelope trees (λ n. some "closed") unary_text (in_state "10.0.0.7" "Running")))
        ≡ some
            (update_envelope trees (λ n. some "closed") unary_text (in_state "10.0.0.7" "Running")))
    × (read_service unary_text (marshal_service unary_text (in_state "10.0.0.7" "Running"))
        ≡ some (in_state "10.0.0.7" "Running"))
unfolding is_service_state
update_service_state-taken_if_example =
    update_service_state-taken_if trees (λ n. some "closed") unary_text reader "Running" "10.0.0.7"
      refl
