-- ===== src/Device/Stream/Sent.antt =====
-- What a stream of a device sends to its listener.
use i_drac_telemetry_referen.Common.{
  Bool, true, ◌≡◌, refl, sym, ◌∙◌, inl, inr, Option, none, some, List, [], ◌∷◌, ◌++◌, append-nil,
  append_assoc, Bytes, Bool-cases, Option-cases,
}
use i_drac_telemetry_referen.Redfish.{RedfishPayload}
use i_drac_telemetry_referen.Sse.Errors.{Error}
use i_drac_telemetry_referen.Sse.Event.{Event}
use i_drac_telemetry_referen.Sse.Reader
use i_drac_telemetry_referen.Sse.Source
use i_drac_telemetry_referen.Sse.Source.{EventSource, World, After, Outcome, done, failed, blocked}
use i_drac_telemetry_referen.Device.Listener.{RedfishEvent, sse_error, event}
use i_drac_telemetry_referen.Device.Stream.{
  Round, Ending, running, stopped, broke, Streamed, with_payload, still, on_outcome, on_next,
  stream,
}

abbrev pub payload_events : List RedfishPayload → List RedfishEvent
payload_events [] = []
payload_events (p ∷ ps) = event (some p) ∷ payload_events ps

-- The events of an ending: one error, if it is an error.
abbrev pub last_events : Ending → List RedfishEvent
last_events running = []
last_events stopped = []
last_events (broke text) = sse_error text ∷ []

abbrev pub ClosedUnless : Ending → EventSource → Type 0
ClosedUnless running source = Unit
ClosedUnless ending source = source.closed ≡ true

module _ (error_text : Error → Bytes) (decode : Bytes → Option RedfishPayload) where
  -- What has been sent before, then the payloads, then the ending.
  abbrev pub Sends : List RedfishEvent → Streamed → Type 0
  Sends sent r =
      ((ps : List RedfishPayload) × (r.sent ≡ sent ++ (payload_events ps ++ last_events r.ending)))
      × ClosedUnless r.ending r.source

  close-closed : (source : EventSource) → (Source.close source).0.closed ≡ true
  unfolding Source.close
  close-closed source = elim (Option-cases source.current_read_closer) [
    | inl e ↦ rw e
    | inr (rc, e) ↦ elim (Option-cases (Reader.close rc).1) [
      | inl none_e ↦ rw e (rw (none_e, Source.close))
      | inr (x, some_e) ↦ rw e (rw (some_e, Source.close))
    ]
  ]

  Sends-later :
      (sent : List RedfishEvent) (o : Option RedfishPayload) (r : Streamed)
      → Sends (with_payload error_text decode o sent) r
      → Sends sent r
  Sends-later sent none r h = h
  Sends-later sent (some p) r ((ps, e), c) = (
    (
      p ∷ ps,
      e ∙ append_assoc sent (event (some p) ∷ []) (payload_events ps ++ last_events r.ending),
    ),
    c,
  )

  Sends-still :
      (sent : List RedfishEvent) (source : EventSource) (w : World)
      → Sends sent (still error_text decode source w sent)
  Sends-still sent source w = (([], sym (append-nil sent)), tt)

  Sends-on_outcome :
      (idle : Bool) (source : EventSource) (w : World) (o : Outcome Event)
      (sent : List RedfishEvent) (again : EventSource → World → List RedfishEvent → Streamed)
      → ((s : EventSource) (v : World) (es : List RedfishEvent) → Sends es (again s v es))
      → Sends sent (on_outcome error_text decode idle source w o sent again)
  Sends-on_outcome idle source w (done e) sent again h =
      Sends-later sent (decode e.payload)
        (again source w (with_payload error_text decode (decode e.payload) sent))
        (h source w (with_payload error_text decode (decode e.payload) sent))
  Sends-on_outcome idle source w (failed e) sent again h = (([], refl), close-closed source)
  Sends-on_outcome idle source w blocked sent again h = Sends-still sent source w

  Sends-on_next :
      (idle : Bool) (source : EventSource) (w : World) (o : Option (After Event))
      (sent : List RedfishEvent) (again : EventSource → World → List RedfishEvent → Streamed)
      → ((s : EventSource) (v : World) (es : List RedfishEvent) → Sends es (again s v es))
      → Sends sent (on_next error_text decode idle source w o sent again)
  Sends-on_next idle source w none sent again h = Sends-still sent source w
  Sends-on_next idle source w (some a) sent again h =
      Sends-on_outcome idle a.source a.world a.outcome sent again h

  -- However long the loop of StartSSE goes on, and from any source: behind what was sent before, it
  -- has sent events with payloads and, if an error has ended it, one error as the last. If it has
  -- returned, the source is closed.
  pub stream-Sends :
      (rounds : List Round) (source : EventSource) (w : World) (sent : List RedfishEvent)
      → Sends sent (stream error_text decode rounds source w sent)
  unfolding stream
  stream-Sends [] source w sent = Sends-still sent source w
  stream-Sends (r ∷ rs) source w sent = elim (Bool-cases r.cancelled) [
    | inl e ↦ rw e (([], sym (append-nil sent)), close-closed source)
    | inr e ↦ rw e (
        Sends-on_next r.idle source w (Source.next source w) sent (stream error_text decode rs)
          (stream-Sends rs))
  ]
