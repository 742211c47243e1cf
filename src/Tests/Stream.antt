-- ===== src/Tests/Stream.antt =====
-- internal/redfish/redfish.go: the streams of a device, on runs, and instances of the theorems.
use i_drac_telemetry_referen.Common.{false, ◌≡◌, refl, Option, none, some, List, [], ◌∷◌, Bytes}
use i_drac_telemetry_referen.Common.Int.{pos}
use i_drac_telemetry_referen.Common.Text.{codes}
use i_drac_telemetry_referen.Redfish.{RedfishPayload, empty_payload}
use i_drac_telemetry_referen.Sse.Errors.{Error, eof}
use i_drac_telemetry_referen.Sse.Reader
use i_drac_telemetry_referen.Sse.Reader.{Body, new_read_closer}
use i_drac_telemetry_referen.Sse.Source.{
  EventSource, create_event_source, answered, World, ensure_read_closer, after_read,
}
use i_drac_telemetry_referen.Device.Listener.{sse_error, event}
use i_drac_telemetry_referen.Device.Stream.{Round, still, stream, start_sse, lce_stream}
use i_drac_telemetry_referen.Device.Stream.Sent.{Sends, stream-Sends}
use i_drac_telemetry_referen.Device.Stream.Spinning.{lce_stream-AtEof}

abbrev error_text : Error → Bytes
error_text eof = codes "EOF"
error_text e = codes "failed"

-- Every message is an object.
abbrev decode : Bytes → Option RedfishPayload
decode bytes = some empty_payload

abbrev body : Body
body = record { stream = codes "data: 1\n\ndata: 2\n\n"; failure = eof; close_result = none }

abbrev world : World
world = record { replies = answered 200 body false ∷ []; waits = []; requests = [] }

abbrev round : Round
round = record { cancelled = false; idle = false }

abbrev rounds : List Round
rounds = round ∷ round ∷ round ∷ round ∷ []

two_messages :
    start_sse error_text decode rounds world
    ≡ event (some empty_payload)
      ∷ event (some empty_payload)
      ∷ sse_error (codes "connection error")
      ∷ []
unfolding start_sse ensure_read_closer Reader.next after_read
two_messages = refl

abbrev source : EventSource
source = create_event_source (pos 5000000000) 10

stream-Sends_example : Sends error_text decode [] (stream error_text decode rounds source world [])
stream-Sends_example = stream-Sends error_text decode rounds source world []

abbrev at_end : EventSource
at_end = record source {
  current_read_closer = some (record (new_read_closer body) { stream = [] });
}

lce_stream-AtEof_example :
    lce_stream error_text decode rounds at_end world [] ≡ still error_text decode at_end world []
lce_stream-AtEof_example =
    lce_stream-AtEof error_text decode rounds at_end world [] (refl, (_, refl, refl, refl))
      (refl, (refl, (refl, (refl, tt))))
