-- ===== src/Sse/RoundTrip/Dataless.antt =====
-- A block with no data: the comment in `Next` says that its event is skipped per the spec.
use i_drac_telemetry_referen.Common.{◌≡◌, refl, ap, ◌∙◌, some, [], ◌∷◌, ◌++◌, Bytes}
use i_drac_telemetry_referen.Common.Int.{pos}
use i_drac_telemetry_referen.Sse.Errors.{ok}
use i_drac_telemetry_referen.Sse.Event.{Event, name_line, payload_line}
use i_drac_telemetry_referen.Sse.Reader.{
  ReadCloser, Pending, start, proceed, at_blank, handle_line, next,
}
use i_drac_telemetry_referen.Sse.Reader.Buffered.{next-scan_next}
use i_drac_telemetry_referen.Sse.Reader.Lines.{strip_cr}
use i_drac_telemetry_referen.Sse.Reader.Scan.{scan, scan_next, scan_newline, at_line}
use i_drac_telemetry_referen.Sse.RoundTrip.{scan_blank}
use i_drac_telemetry_referen.Sse.RoundTrip.Pieces.{IsLine, scan-name_line, scan-payload_line}

handle_line_dataless :
    (p : Pending) → p.event.payload ≡ [] → handle_line p (strip_cr []) ≡ proceed p
unfolding handle_line strip_cr
handle_line_dataless p h = blank p.event.payload h
  where
    blank : (l : Bytes) → l ≡ [] → at_blank p l ≡ proceed p
    blank [] e = refl
    blank (c ∷ cs) e = cc

-- A blank line after a block with no data changes nothing.
scan_dataless :
    (rc : ReadCloser) (p : Pending) (rest : Bytes)
    → p.event.payload ≡ []
    → scan rc p [] (b'\n' ∷ rest) ≡ scan rc p [] rest
scan_dataless rc p rest h =
    scan_newline rc p [] b'\n' rest refl ∙ rw (handle_line_dataless p h, at_line)

module _ (rc : ReadCloser) (e : Event) (d rest : Bytes) (hn : IsLine e.name) (hd : IsLine d) where
  scan-name_line-payload_line :
      scan rc (start rc) [] (name_line e ++ (b'\n' ∷ (payload_line d ++ b'\n' ∷ rest))) ≡ (
        record rc { stream = rest },
        ok (record { id = rc.last_id; name = e.name; payload = d; retry = pos 0 }),
      )
  scan-name_line-payload_line =
      scan-name_line rc (start rc) e _ hn
      ∙ scan_dataless rc _ _ refl
      ∙ scan-payload_line rc _ d _ hd
      ∙ scan_blank rc _ d rest refl

  -- If the unread bytes are an `event` line for a name, a blank line, a data line and a blank line,
  -- then `Next` returns the event of the second block under the name that the first block, which had
  -- no data, has left behind.
  pub next_dataless :
      rc.stream ≡ name_line e ++ (b'\n' ∷ (payload_line d ++ b'\n' ∷ rest))
      → next rc
        ≡ some (
          record rc { stream = rest },
          ok (record { id = rc.last_id; name = e.name; payload = d; retry = pos 0 }),
        )
  next_dataless s =
      next-scan_next rc ∙ unfold scan_next in rw s (ap some scan-name_line-payload_line)

scan-block :
    (rc : ReadCloser) (d rest : Bytes)
    → IsLine d
    → scan rc (start rc) [] (payload_line d ++ b'\n' ∷ rest) ≡ (
      record rc { stream = rest },
      ok (record { id = rc.last_id; name = []; payload = d; retry = pos 0 }),
    )
scan-block rc d rest hd = scan-payload_line rc (start rc) d _ hd ∙ scan_blank rc _ d rest refl

-- A block of one data line, with no id, takes the reader's last id.
pub next-payload_line :
    (rc : ReadCloser) (d rest : Bytes)
    → IsLine d
    → rc.stream ≡ payload_line d ++ b'\n' ∷ rest
    → next rc
      ≡ some (
        record rc { stream = rest },
        ok (record { id = rc.last_id; name = []; payload = d; retry = pos 0 }),
      )
next-payload_line rc d rest hd s =
    next-scan_next rc ∙ unfold scan_next in rw s (ap some (scan-block rc d rest hd))
