-- ===== src/Sse/Source/Resume.antt =====
-- What `establishConnection` and `Next` keep, and that `Next` comes back.
use i_drac_telemetry_referen.Common.{
  ℕ, zero, suc, ◌<◌, ◌≤◌, true, false, ◌≡◌, ◌≢◌, refl, sym, ap, ◌∙◌, inl, inr, Option, none, some,
  List, [], ◌∷◌, arith, Bool-cases, length,
}
use i_drac_telemetry_referen.Sse.Errors.{Error, eof, Result, ok, err}
use i_drac_telemetry_referen.Sse.Event.{Event}
use i_drac_telemetry_referen.Sse.Reader
use i_drac_telemetry_referen.Sse.Reader.{Body, ReadCloser, new_read_closer}
use i_drac_telemetry_referen.Sse.Reader.Buffered.{next-scan_next}
use i_drac_telemetry_referen.Sse.Reader.Scan.{scan, scan_next}
use i_drac_telemetry_referen.Sse.Source.{
  EventSource, Wait, elapsed, interrupted, World, Outcome, done, failed, blocked, After, dropped,
  wait_for_retry, ensure_read_closer, after_read, next_round, next, is_eof, closing_wait,
}
use i_drac_telemetry_referen.Sse.Source.Attempt.{Ensured, ensure_some, ensure-Ensured}

abbrev pub AtEof : EventSource → Type 0
AtEof s =
    (s.closed ≡ false)
    × ((rc : ReadCloser) × (s.current_read_closer ≡ some rc)
        × (rc.stream ≡ [])
        × (rc.failure ≡ eof))

-- How a call of `Next` on `s` leaves the source `t`, by its outcome.
abbrev pub Answers : EventSource → EventSource → Outcome Event → Type 0
Answers s t (done e) =
    (t.last_event_id ≡ e.id)
    × ((rc : ReadCloser) × (t.current_read_closer ≡ some rc) × (rc.last_id ≡ e.id))
Answers s t (failed x) = (t.last_event_id ≡ s.last_event_id) × (x ≡ eof → AtEof t)
Answers s t blocked = t.last_event_id ≡ s.last_event_id

-- A result of a round, and how it leaves the source.
abbrev Returns : EventSource → Option (After Event) → Type 0
Returns s o = (a : After Event) × (o ≡ some a) × Answers s a.source a.outcome

Answers-id :
    (s t : EventSource) (u : EventSource) (o : Outcome Event)
    → t.last_event_id ≡ s.last_event_id
    → Answers t u o
    → Answers s u o
Answers-id s t u (done e) i h = h
Answers-id s t u (failed x) i h = (h.0 ∙ i, h.1)
Answers-id s t u blocked i h = h ∙ i

Returns-id :
    (s t : EventSource) (o : Option (After Event))
    → t.last_event_id ≡ s.last_event_id
    → Returns t o
    → Returns s o
Returns-id s t o i (a, e, h) = (a, e, Answers-id s t a.source a.outcome i h)

closing_wait-Returns :
    (s : EventSource) (w : World) (ws : List Wait) (k : EventSource → World → Option (After Event))
    → ((v : List Wait)
        → length v < length ws
        → Returns (dropped s) (k (dropped s) (record w { waits = v })))
    → Returns s (closing_wait (wait_for_retry s ws) w k)
unfolding wait_for_retry
closing_wait-Returns s w [] k h = (_, refl, refl)
closing_wait-Returns s w (elapsed ∷ ws) k h = Returns-id s (dropped s) _ refl (h ws (omega arith))
closing_wait-Returns s w (interrupted ∷ ws) k h = (_, refl, (refl, λ e. cc))

is_eof-true : (x : Error) → is_eof x ≡ true → x ≡ eof
is_eof-true eof h = refl
is_eof-true _ h = cc

is_eof-false : (x : Error) → is_eof x ≡ false → x ≢ eof
is_eof-false eof h = cc
is_eof-false _ h = λ e. cc

after_read-Returns :
    (s : EventSource) (w : World) (rc : ReadCloser) (r : ReadCloser × Result Event)
    (k : EventSource → World → Option (After Event))
    → s.closed ≡ false
    → Reader.Ids.After rc (length rc.stream) r
    → ((v : List Wait)
        → length v < length w.waits
        → Returns (dropped s) (k (dropped s) (record w { waits = v })))
    → Returns s (after_read s w r k)
unfolding after_read
after_read-Returns s w rc (rc', ok e) k o h ih = (_, refl, (refl, (rc', refl, h.0)))
after_read-Returns s w rc (rc', err x) k o h ih = elim (Bool-cases (is_eof x)) [
  | inl e ↦ rw e (_, refl, (refl, λ y. (o, (rc', refl, h.1, h.3 ∙ sym h.0 ∙ y))))
  | inr e ↦ rw e (closing_wait-Returns s w w.waits k ih)
]

module _ (fuel : ℕ)
    (ih : (s : EventSource) (w : World)
      → s.closed ≡ false
      → length w.waits < fuel
      → Returns s (next_round fuel s w)) where
  read-Returns :
      (s : EventSource) (w : World) (rc : ReadCloser)
      → s.closed ≡ false
      → length w.waits ≤ fuel
      → Returns s
          (elim (Reader.next rc) [ none ↦ none | some r ↦ after_read s w r (next_round fuel) ])
  read-Returns s w rc o l =
      let (r, e, post) = Reader.Ids.next-After rc in
      rw e (
        after_read-Returns s w rc r (next_round fuel) o post
          (λ v f. ih (dropped s) (record w { waits = v }) o (omega arith)))

  round-Returns :
      (s : EventSource) (w : World) (t : EventSource) (v : World) (o : Outcome ReadCloser)
      → Ensured s w (record { source = t; world = v; outcome = o })
      → length w.waits ≤ fuel
      → Returns s (elim o [
        | failed e ↦ some (record { source = t; world = v; outcome = failed e })
        | blocked ↦ some (record { source = t; world = v; outcome = blocked })
        | done rc ↦ elim (Reader.next rc) [
          | none ↦ none
          | some r ↦ after_read t v r (next_round fuel)
        ]
      ])
  round-Returns s w t v (done rc) h l =
      Returns-id s t _ h.same_id
        (read-Returns t v rc (h.open_if_done rc refl) (omega (arith, h.fewer_waits)))
  round-Returns s w t v (failed x) h l =
      (_, refl, (h.same_id, λ e. absurd (h.not_eof (ap failed e))))
  round-Returns s w t v blocked h l = (_, refl, h.same_id)

next_round-Returns :
    (fuel : ℕ) (s : EventSource) (w : World)
    → s.closed ≡ false
    → length w.waits < fuel
    → Returns s (next_round fuel s w)
unfolding next_round
next_round-Returns zero s w o l = elim l [ ]
next_round-Returns (suc fuel) s w o l =
    let a = ensure_read_closer s w in
    round-Returns fuel (next_round-Returns fuel) s w a.source a.world a.outcome
      (ensure-Ensured s w s.current_read_closer refl o) (omega arith)

pub next_open :
    (s : EventSource) (w : World)
    → s.closed ≡ false
    → next s w ≡ next_round (suc (length w.waits)) s w
unfolding next
next_open s w o = simp o

-- Each call of `Next` on a source comes back, whatever the replies and the waits. With an event, the
-- source's last event id and its reader's are the event's. With an error, or blocked, the source's
-- last event id is what it was; and if the error is EOF, the source is open and its reader is at the
-- end of its stream.
pub next-Answers :
    (s : EventSource) (w : World)
    → s.closed ≡ false
    → (a : After Event) × (next s w ≡ some a) × Answers s a.source a.outcome
next-Answers s w o =
    rw (next_open s w o) (next_round-Returns (suc (length w.waits)) s w o (omega arith))

next_at_eof :
    (rc : ReadCloser) → rc.stream ≡ [] → rc.failure ≡ eof → Reader.next rc ≡ some (rc, err eof)
next_at_eof rc st f = next-scan_next rc ∙ unfold scan_next scan in rw (st, f)

after_read_eof :
    (s : EventSource) (w : World) (rc : ReadCloser) (k : EventSource → World → Option (After Event))
    → s.current_read_closer ≡ some rc
    → after_read s w (rc, err eof) k ≡ some (record { source = s; world = w; outcome = failed eof })
unfolding after_read
after_read_eof s w rc k c = rw c

-- A round whose reader answers.
pub next_round_read :
    (fuel : ℕ) (s t : EventSource) (w v : World) (rc : ReadCloser) (r : ReadCloser × Result Event)
    → ensure_read_closer s w ≡ record { source = t; world = v; outcome = done rc }
    → Reader.next rc ≡ some r
    → next_round (suc fuel) s w ≡ after_read t v r (next_round fuel)
unfolding next_round
next_round_read fuel s t w v rc r e n = rw (e, next_round) (rw n (rw e))

-- After EOF the next calls return EOF too, send no request and change nothing.
pub next-AtEof :
    (s : EventSource) (w : World)
    → AtEof s
    → next s w ≡ some (record { source = s; world = w; outcome = failed eof })
next-AtEof s w (o, (rc, c, st, f)) =
    next_open s w o
    ∙ next_round_read (length w.waits) s s w w rc (rc, err eof) (ensure_some s w rc c)
        (next_at_eof rc st f)
    ∙ after_read_eof s w rc _ c
