-- ===== src/Tests/Service.antt =====
-- internal/service/service.go: a call over a bus that takes every message.
use i_drac_telemetry_referen.Tests.Fixtures.{trees}
use i_drac_telemetry_referen.Common.{ℕ, ◌≡◌, refl, Option, none, some, [], ◌∷◌, String}
use i_drac_telemetry_referen.Common.Ascii.{to_lower, lower}
use i_drac_telemetry_referen.Common.Dict
use i_drac_telemetry_referen.Common.Text.{append}
use i_drac_telemetry_referen.Json.{Json, JsonText, arr}
use i_drac_telemetry_referen.Json
use i_drac_telemetry_referen.Wire.{
  Envelope, nil, document, bytes, new_correlation_id, encode_envelope, decode_envelope,
  decode_fields, set_key, text_field, new_request, reply_err,
}
use i_drac_telemetry_referen.Service.{
  Bus, BaseClient, response, new_base_client, begin_call, receive_reply, finish_call, decode_text,
  forget, result_of, init_reply_listener, send_envelope, send_message, reply,
}
use i_drac_telemetry_referen.Service.Calls.{
  text_of, delivered, ok_answer, call_reply, asked, waiting, served,
}
use i_drac_telemetry_referen.Service.Correlation.{
  Run, fresh, begins, receives, Heard, Run-finish_call,
}

abbrev takes_all : ℕ → Option String
takes_all n = none

abbrev quiet : Bus Json
quiet = record { posted = []; sends = 0 }

abbrev new_client : BaseClient Json
new_client = new_base_client quiet "/queue/databus/command" "/queue/databus/reply." "pump"

abbrev client : BaseClient Json
client = record new_client { reply_queue = "/queue/databus/reply.pump"; reply_once = some none }

abbrev question : Envelope
question = asked trees takes_all client "getproducers" none (bytes "7f")

abbrev start : BaseClient Json
start = waiting trees takes_all client "getproducers" none (bytes "7f")

abbrev answer : Envelope
answer = ok_answer trees takes_all question (some (arr Json.nil))

abbrev refusal : Envelope
refusal = reply_err question (some "no such command")

abbrev heard : BaseClient Json
heard = served trees takes_all client "getproducers" none (bytes "7f") answer

call_reply_example :
    (begin_call trees takes_all client none "getproducers" nil (bytes "7f") ≡ (start, none))
    × (decode_text trees takes_all (text_of trees takes_all question) ≡ some question)
    × (reply trees takes_all quiet question (document (arr Json.nil))
        ≡ (delivered trees takes_all quiet "/queue/databus/reply.pump" answer, none))
    × (finish_call trees takes_all
          (receive_reply trees takes_all start (text_of trees takes_all answer))
          "req-7f"
        ≡ some (
          forget trees takes_all
              (served trees takes_all client "getproducers" none (bytes "7f") answer)
              "req-7f",
          response (some (arr Json.nil)),
        ))
unfolding new_correlation_id append
call_reply_example =
    call_reply trees takes_all client "getproducers" none (bytes "7f") refl refl quiet refl refl
      (some (arr Json.nil))

asked_one :
    Run trees takes_all new_client []
      (begin_call trees takes_all new_client none "getproducers" nil (bytes "7f")).0
asked_one = begins none "getproducers" nil (bytes "7f") fresh refl

heard_one : Run trees takes_all new_client (encode_envelope answer ∷ []) heard
unfolding begin_call init_reply_listener receive_reply decode_text send_envelope send_message
    new_request encode_envelope decode_envelope decode_fields set_key text_field to_lower lower
    new_correlation_id Dict.get Dict.put append
heard_one = receives (encode_envelope answer) asked_one refl

Run-finish_call_example :
    (e : Envelope) × (e.correlation_id ≡ "req-7f")
    × (response (some (arr Json.nil)) ≡ result_of trees takes_all e)
    × Heard trees takes_all (encode_envelope answer ∷ []) e
unfolding finish_call new_correlation_id append Dict.get Dict.put
Run-finish_call_example =
    Run-finish_call trees takes_all quiet "/queue/databus/command" "/queue/databus/reply." "pump"
      heard (forget trees takes_all heard "req-7f") "req-7f" (response (some (arr Json.nil)))
      heard_one refl
