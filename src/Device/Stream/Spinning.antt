-- ===== src/Device/Stream/Spinning.antt =====
-- The streams of life cycle events after their end.
use i_drac_telemetry_referen.Common.{false, ◌≡◌, refl, ap, ◌∙◌, Option, List, [], ◌∷◌, Bytes}
use i_drac_telemetry_referen.Redfish.{RedfishPayload}
use i_drac_telemetry_referen.Sse.Errors.{Error}
use i_drac_telemetry_referen.Sse.Source.{EventSource, World}
use i_drac_telemetry_referen.Sse.Source.Resume.{AtEof, next-AtEof}
use i_drac_telemetry_referen.Device.Listener.{RedfishEvent}
use i_drac_telemetry_referen.Device.Stream.{Round, still, on_lce, lce_stream}

abbrev pub NeverCancelled : List Round → Type 0
NeverCancelled [] = Unit
NeverCancelled (r ∷ rs) = (r.cancelled ≡ false) × NeverCancelled rs

-- At the end of its stream, the loop of GetLceSSE and of GetEventsSSE goes through any number of
-- rounds without sending anything, without returning, and with its source as it was, as long as the
-- context is not done.
pub lce_stream-AtEof :
    (error_text : Error → Bytes) (decode : Bytes → Option RedfishPayload) (rounds : List Round)
    (source : EventSource) (w : World) (sent : List RedfishEvent)
    → AtEof source
    → NeverCancelled rounds
    → lce_stream error_text decode rounds source w sent ≡ still error_text decode source w sent
unfolding lce_stream
lce_stream-AtEof t d [] source w sent ended held = refl
lce_stream-AtEof t d (r ∷ rs) source w sent ended held = rw held.0 (
    ap (λ o. on_lce t d source w o sent (lce_stream t d rs)) (next-AtEof source w ended)
    ∙ lce_stream-AtEof t d rs source w sent ended held.1)
