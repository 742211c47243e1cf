-- ===== src/Tests/Sse.antt =====
-- internal/sse: runs of the reader and of the source, and instances of the theorems.
use i_drac_telemetry_referen.Common.{
  ◌≡◌, refl, [], ◌∷◌, ◌++◌, some, none, false, arith, replicate, length,
}
use i_drac_telemetry_referen.Common.Int.{pos}
use i_drac_telemetry_referen.Common.Text.{codes}
use i_drac_telemetry_referen.Sse.Errors.{eof, request_failed, Result, ok}
use i_drac_telemetry_referen.Sse.Event.{Event, encode, name_line, payload_line, split_lines}
use i_drac_telemetry_referen.Sse.Reader
use i_drac_telemetry_referen.Sse.Reader.{ReadCloser, Body, new_read_closer}
use i_drac_telemetry_referen.Sse.Reader.Buffered.{next-scan_next}
use i_drac_telemetry_referen.Sse.Reader.Ids.{next-After}
use i_drac_telemetry_referen.Sse.Reader.Lines.{ends_cr}
use i_drac_telemetry_referen.Sse.Reader.Scan.{scan_next}
use i_drac_telemetry_referen.Sse.RoundTrip.{IsLine, IsEncodable, next-encode}
use i_drac_telemetry_referen.Sse.RoundTrip.Dataless.{next_dataless}
use i_drac_telemetry_referen.Sse.Source.{
  EventSource, create_event_source, refused, answered, elapsed, World, done, failed, After,
  establish, next,
}
use i_drac_telemetry_referen.Sse.Source.Reconnect.{next_forgets_id}
use i_drac_telemetry_referen.Sse.Source.Resume.{Answers, next-Answers}
use i_drac_telemetry_referen.Sse.Source.Retries.{establish_gives_up}

abbrev report : Event
report = record { id = codes "7"; name = codes "ev"; payload = codes "a\nb"; retry = pos 1500000 }

report_text : encode report ≡ codes "id: 7\nevent: ev\nretry: 1\ndata: a\ndata: b\n\n"
unfolding encode
report_text = refl

abbrev body : Body
body = record { stream = codes "id: 7\ndata: x\n\n"; failure = eof; close_result = none }

abbrev reader : ReadCloser
reader = record (new_read_closer body) { stream = encode report ++ codes "data: z\n\n" }

IsLine-id : IsLine report.id
unfolding ends_cr
IsLine-id = record { inside = (refl, tt); no_cr = refl }

IsLine-name : IsLine report.name
unfolding ends_cr
IsLine-name = record { inside = (refl, (refl, tt)); no_cr = refl }

IsEncodable-report : IsEncodable report
unfolding split_lines ends_cr
IsEncodable-report = record {
  id_line = IsLine-id;
  name_line = IsLine-name;
  no_returns = (refl, (refl, tt));
  duration = omega arith;
}

next-encode_example :
    Reader.next reader
    ≡ some (
      record reader { last_id = codes "7"; stream = codes "data: z\n\n" },
      ok (record report { retry = pos 1000000 }),
    )
next-encode_example = next-encode reader report (codes "data: z\n\n") IsEncodable-report refl

next-scan_next_example : Reader.next reader ≡ some (scan_next reader)
next-scan_next_example = next-scan_next reader

next-After_example :
    (r : ReadCloser × Result Event) × (Reader.next reader ≡ some r)
    × Reader.Ids.After reader (length reader.stream) r
next-After_example = next-After reader

abbrev two_blocks : ReadCloser
two_blocks = record reader {
  stream = name_line report ++ (b'\n' ∷ (payload_line (codes "7") ++ b'\n' ∷ []));
}

next_dataless_example :
    Reader.next two_blocks
    ≡ some (
      record two_blocks { stream = [] },
      ok (record { id = []; name = codes "ev"; payload = codes "7"; retry = pos 0 }),
    )
next_dataless_example = next_dataless two_blocks report (codes "7") [] IsLine-name IsLine-id refl

abbrev two_retries : EventSource
two_retries = create_event_source (pos 5) 2

establish_gives_up_example :
    establish two_retries 0 (replicate 3 refused) (replicate 2 elapsed) [] ≡ record {
      source = two_retries;
      world = record { replies = []; waits = []; requests = replicate 3 [] };
      outcome = failed request_failed;
    }
establish_gives_up_example =
    establish_gives_up two_retries 0 2 [] [] [] (omega arith) (omega arith) (omega arith)

abbrev largest : After ReadCloser
largest =
    establish (create_event_source (pos 5) 65535) 65535 (replicate 3 refused) (replicate 2 elapsed)
      []

abbrev world : World
world = record { replies = answered 200 body false ∷ []; waits = []; requests = [] }

next-Answers_example :
    (a : After Event) × (next two_retries world ≡ some a) × Answers two_retries a.source a.outcome
next-Answers_example = next-Answers two_retries world refl

abbrev at_end : EventSource
at_end = record two_retries {
  current_read_closer = some (record (new_read_closer body) { stream = [] });
}

abbrev resumed : EventSource
resumed = record two_retries { last_event_id = codes "7" }

abbrev unnamed : Body
unnamed = record body { stream = payload_line (codes "7") ++ b'\n' ∷ [] }

next_forgets_id_example :
    next resumed (record { replies = answered 200 unnamed false ∷ []; waits = []; requests = [] })
    ≡ some (record {
      source = record resumed {
        current_read_closer = some (record (new_read_closer unnamed) { stream = [] });
        last_event_id = [];
      };
      world = record { replies = []; waits = []; requests = codes "7" ∷ [] };
      outcome = done (record { id = []; name = []; payload = codes "7"; retry = pos 0 });
    })
next_forgets_id_example =
    next_forgets_id resumed
      (record { replies = answered 200 unnamed false ∷ []; waits = []; requests = [] }) unnamed []
      refl refl refl (codes "7") [] IsLine-id refl
