-- ===== src/Device/Stream.antt =====
-- internal/redfish/redfish.go: the events of a device, from its stream to the channel of a listener.
-- A round of a loop is whether the context is done, and whether the last event was more than an hour
-- ago. The texts of errors and the decoding of a payload are parameters; the URLs and their filters
-- are not in the model.
pub mod Sent
pub mod Spinning
use i_drac_telemetry_referen.Common.{
  ℕ, Bool, true, false, Option, none, some, List, [], ◌∷◌, ◌++◌, String, Bytes, if◌then◌else◌,
}
use i_drac_telemetry_referen.Common.Ascii.{contains}
use i_drac_telemetry_referen.Common.Int.{pos}
use i_drac_telemetry_referen.Common.Text.{codes}
use i_drac_telemetry_referen.Json.{Json}
use i_drac_telemetry_referen.Redfish
use i_drac_telemetry_referen.Redfish.{
  RedfishPayload, value, panics, exits, ◌>>=◌, has, member, as_text, get_property_by_name,
}
use i_drac_telemetry_referen.Sse.Errors.{Error}
use i_drac_telemetry_referen.Sse.Event.{Event}
use i_drac_telemetry_referen.Sse.Reader.{ReadCloser}
use i_drac_telemetry_referen.Sse.Source
use i_drac_telemetry_referen.Sse.Source.{EventSource, World, After, Outcome, done, failed, blocked}
use i_drac_telemetry_referen.Device.Listener.{RedfishEvent, sse_error, event}

pub record Round : Type 0 where
  pub cancelled : Bool
  pub idle : Bool

-- The loop has not come to an end, it has returned as the context was done, or after an error.
pub data Ending : Type 0 where
  running : Ending
  stopped : Ending
  broke : Bytes → Ending

pub record Streamed : Type 0 where
  pub source : EventSource
  pub world : World
  pub sent : List RedfishEvent
  pub ending : Ending

module _ (error_text : Error → Bytes) (decode : Bytes → Option RedfishPayload) where
  -- A message that cannot be decoded is passed over.
  abbrev pub with_payload : Option RedfishPayload → List RedfishEvent → List RedfishEvent
  with_payload none sent = sent
  with_payload (some p) sent = sent ++ event (some p) ∷ []

  -- The text of the error that goes to the listener
  unfoldable pub reported : Error → Bool → Bytes
  unfolding contains
  reported e idle =
      if contains (error_text e) (codes "EOF")
      then (if idle then codes "sse idle timeout" else codes "connection error")
      else error_text e

  abbrev closed_as : EventSource → World → List RedfishEvent → Ending → Streamed
  closed_as source w sent ending = record {
    source = (Source.close source).0;
    world = w;
    sent = sent;
    ending = ending;
  }

  abbrev pub still : EventSource → World → List RedfishEvent → Streamed
  still source w sent = record { source = source; world = w; sent = sent; ending = running }

  abbrev pub on_outcome :
      Bool
      → EventSource
      → World
      → Outcome Event
      → List RedfishEvent
      → (EventSource → World → List RedfishEvent → Streamed)
      → Streamed
  on_outcome idle source w (done e) sent again =
      again source w (with_payload (decode e.payload) sent)
  on_outcome idle source w (failed e) sent again =
      closed_as source w (sent ++ sse_error (reported e idle) ∷ []) (broke (reported e idle))
  on_outcome idle source w blocked sent again = still source w sent

  abbrev pub on_next :
      Bool
      → EventSource
      → World
      → Option (After Event)
      → List RedfishEvent
      → (EventSource → World → List RedfishEvent → Streamed)
      → Streamed
  on_next idle source w none sent again = still source w sent
  on_next idle source w (some a) sent again = on_outcome idle a.source a.world a.outcome sent again

  -- The loop of `StartSSE`
  unfoldable pub stream : List Round → EventSource → World → List RedfishEvent → Streamed
  unfolding Source.next Source.close reported
  stream [] source w sent = still source w sent
  stream (round ∷ rounds) source w sent =
      if round.cancelled
      then closed_as source w sent stopped
      else on_next round.idle source w (Source.next source w) sent (stream rounds)

  abbrev on_error :
      EventSource
      → World
      → Outcome Event
      → List RedfishEvent
      → (EventSource → World → List RedfishEvent → Streamed)
      → Streamed
  on_error source w (done e) sent again = again source w (with_payload (decode e.payload) sent)
  on_error source w (failed e) sent again = again source w sent
  on_error source w blocked sent again = still source w sent

  abbrev pub on_lce :
      EventSource
      → World
      → Option (After Event)
      → List RedfishEvent
      → (EventSource → World → List RedfishEvent → Streamed)
      → Streamed
  on_lce source w none sent again = still source w sent
  on_lce source w (some a) sent again = on_error a.source a.world a.outcome sent again

  -- The loop of `GetLceSSE` and of `GetEventsSSE`, whose `break` leaves the select and not the loop.
  unfoldable pub lce_stream : List Round → EventSource → World → List RedfishEvent → Streamed
  unfolding Source.next Source.close
  lce_stream [] source w sent = still source w sent
  lce_stream (round ∷ rounds) source w sent =
      if round.cancelled
      then closed_as source w sent stopped
      else on_lce source w (Source.next source w) sent (lce_stream rounds)

  abbrev connected : List Round → After ReadCloser → List RedfishEvent
  connected rounds a = elim a.outcome [
    | done rc ↦ (stream rounds a.source a.world []).sent
    | failed e ↦ sse_error (codes "connection error") ∷ []
    | blocked ↦ []
  ]

  -- `StartSSE`, with the event that its caller sends for its error
  unfoldable pub start_sse : List Round → World → List RedfishEvent
  unfolding Source.connect stream
  start_sse rounds w = connected rounds (Source.connect (pos 5000000000) 10 w)

  module _ (get_uri : String → Redfish.Outcome RedfishPayload) (refusal : Bytes) where
    abbrev with_uri : Option Json → List Round → World → Redfish.Outcome (List RedfishEvent)
    with_uri uri rounds w =
        if has uri
        then (as_text uri >>= λ u. value (start_sse rounds w))
        else value (sse_error (codes "Don't support POST back yet!") ∷ [])

    abbrev or_refusal :
        Redfish.Outcome RedfishPayload
        → (RedfishPayload → Redfish.Outcome (List RedfishEvent))
        → Redfish.Outcome (List RedfishEvent)
    or_refusal (value p) k = k p
    or_refusal Redfish.failed k = value (sse_error refusal ∷ [])
    or_refusal panics k = panics
    or_refusal exits k = exits

    -- `ListenForMetricReports` and `ListenForAlerts`: what they send on the channel
    unfoldable pub listen_for : List Round → World → Redfish.Outcome (List RedfishEvent)
    unfolding start_sse get_property_by_name member
    listen_for rounds w = or_refusal (get_uri "/redfish/v1") (λ service_root.
        or_refusal (get_property_by_name get_uri service_root "EventService")
          (λ event_service. with_uri (member event_service.object "ServerSentEventUri") rounds w))
