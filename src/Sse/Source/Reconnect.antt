-- ===== src/Sse/Source/Reconnect.antt =====
-- What becomes of the last event id when a new connection is opened.
use i_drac_telemetry_referen.Common.{
  false, ◌≡◌, refl, ◌∙◌, none, some, List, [], ◌∷◌, ◌++◌, Bytes, length,
}
use i_drac_telemetry_referen.Common.Int.{pos}
use i_drac_telemetry_referen.Sse.Event.{payload_line}
use i_drac_telemetry_referen.Sse.Reader.{Body, ReadCloser, new_read_closer}
use i_drac_telemetry_referen.Sse.RoundTrip.{IsLine}
use i_drac_telemetry_referen.Sse.RoundTrip.Dataless.{next-payload_line}
use i_drac_telemetry_referen.Sse.Source.{
  EventSource, Reply, answered, World, done, After, ensure_read_closer, after_read, next,
}
use i_drac_telemetry_referen.Sse.Source.Attempt.{ensure_none}
use i_drac_telemetry_referen.Sse.Source.Resume.{next_open, next_round_read}
use i_drac_telemetry_referen.Sse.Source.Retries.{establish_answered}

module _ (s : EventSource) (w : World) (body : Body) (rs : List Reply) (open_now : s.closed ≡ false)
    (no_reader : s.current_read_closer ≡ none)
    (reply : w.replies ≡ answered 200 body false ∷ rs) where
  abbrev reconnected : After ReadCloser
  reconnected = record {
    source = record s { current_read_closer = some (new_read_closer body) };
    world = record w { replies = rs; requests = w.requests ++ s.last_event_id ∷ [] };
    outcome = done (new_read_closer body);
  }

  ensure_reconnects : ensure_read_closer s w ≡ reconnected
  ensure_reconnects =
      ensure_none s w no_reader
      ∙ rw reply (rw (establish_answered s 0 rs w.waits w.requests 200 body false) (simp open_now))

  -- A source that is open and has no reader connects, with its last event id in the request, and
  -- gets a stream that begins with a data line and a blank line. `Next` then returns that event with
  -- an empty id, and the source's last event id is empty: the one it resumed from is lost.
  pub next_forgets_id :
      (d rest : Bytes)
      → IsLine d
      → body.stream ≡ payload_line d ++ b'\n' ∷ rest
      → next s w
        ≡ some (record {
          source = record s {
            current_read_closer = some (record (new_read_closer body) { stream = rest });
            last_event_id = [];
          };
          world = record w { replies = rs; requests = w.requests ++ s.last_event_id ∷ [] };
          outcome = done (record { id = []; name = []; payload = d; retry = pos 0 });
        })
  next_forgets_id d rest hd st =
      next_open s w open_now
      ∙ next_round_read (length w.waits) s _ w _ (new_read_closer body) _ ensure_reconnects
          (next-payload_line (new_read_closer body) d rest hd st)
      ∙ unfold after_read in refl
