-- ===== src/Sse/Source/Attempt.antt =====
-- What `establishConnection` and `ensureReadCloser` keep.
use i_drac_telemetry_referen.Common.{
  ℕ, ◌+◌, ◌%◌, ◌≤◌, Bool, true, false, ◌≡◌, ◌≢◌, refl, ◌∙◌, inl, inr, Option, none, some, List, [],
  ◌∷◌, ◌++◌, arith, Bytes, ◌==◌, Bool-cases, length,
}
use i_drac_telemetry_referen.Sse.Errors.{eof}
use i_drac_telemetry_referen.Sse.Reader.{ReadCloser}
use i_drac_telemetry_referen.Sse.Source.{
  EventSource, Reply, refused, answered, Wait, elapsed, interrupted, World, Outcome, done, failed,
  blocked, After, should_retry, dropped, wait_for_retry, is_retriable, establish, note_close,
  after_wait, establish_connection, ensure_read_closer, keep_unless_closed,
}
use i_drac_telemetry_referen.Sse.Source.Retries.{
  establish_stop, establish_retry, establish_answered,
}

-- An attempt leaves the last event id, takes waits from the front and fails with no EOF.
record Attempted (s : EventSource) (ws : List Wait) (a : After ReadCloser) : Type 0 where
  same_id : a.source.last_event_id ≡ s.last_event_id
  fewer_waits : length a.world.waits ≤ length ws
  not_eof : a.outcome ≢ failed eof

after_wait-Attempted :
    (s : EventSource) (rs : List Reply) (ws : List Wait) (sent : List Bytes)
    (k : EventSource → List Wait → After ReadCloser)
    → ((v : List Wait) → Attempted s v (k (dropped s) v))
    → Attempted s ws (after_wait (wait_for_retry s ws) rs sent k)
unfolding wait_for_retry
after_wait-Attempted s rs [] sent k h = record {
  same_id = refl;
  fewer_waits = omega arith;
  not_eof = λ e. cc;
}
after_wait-Attempted s rs (elapsed ∷ ws) sent k h = record {
  same_id = (h ws).same_id;
  fewer_waits = omega (arith, (h ws).fewer_waits);
  not_eof = (h ws).not_eof;
}
after_wait-Attempted s rs (interrupted ∷ ws) sent k h = record {
  same_id = refl;
  fewer_waits = omega arith;
  not_eof = λ e. cc;
}

note_close-id : (c : Bool) (s : EventSource) → (note_close c s).last_event_id ≡ s.last_event_id
note_close-id true s = refl
note_close-id false s = refl

Attempted-note_close :
    (c : Bool) (s : EventSource) (ws : List Wait) (a : After ReadCloser)
    → Attempted (note_close c s) ws a
    → Attempted s ws a
Attempted-note_close c s ws a h = record {
  same_id = h.same_id ∙ note_close-id c s;
  fewer_waits = h.fewer_waits;
  not_eof = h.not_eof;
}

establish-Attempted :
    (s : EventSource) (n : ℕ) (rs : List Reply) (ws : List Wait) (sent : List Bytes)
    → Attempted s ws (establish s n rs ws sent)
establish-Attempted s n [] ws sent =
    unfold establish in record { same_id = refl; fewer_waits = omega arith; not_eof = λ e. cc }
establish-Attempted s n (refused ∷ rs) ws sent =
    elim (Bool-cases (should_retry s ((n + 1) % 65536))) [
      | inl e ↦ rw (establish_retry s n rs ws sent e) (
          after_wait-Attempted s rs ws _ _ (λ v.
            let h =
              establish-Attempted (dropped s) ((n + 1) % 65536) rs v
                (sent ++ s.last_event_id ∷ []) in
            record { same_id = h.same_id; fewer_waits = h.fewer_waits; not_eof = h.not_eof }))
      | inr e ↦
          rw (establish_stop s n rs ws sent e)
            (record { same_id = refl; fewer_waits = omega arith; not_eof = λ x. cc })
    ]
establish-Attempted s n (answered status body closing ∷ rs) ws sent =
    let s' = note_close closing s in
    rw (establish_answered s n rs ws sent status body closing) (elim (Bool-cases (status == 200)) [
      | inl e ↦ rw e (record {
        same_id = note_close-id closing s;
        fewer_waits = omega arith;
        not_eof = λ x. cc;
      })
      | inr e ↦ rw e (elim (Bool-cases (is_retriable status)) [
        | inl f ↦ rw f (
            Attempted-note_close closing s ws _ (
              after_wait-Attempted s' rs ws _ _ (λ v.
                let h = establish-Attempted (dropped s') n rs v (sent ++ s.last_event_id ∷ []) in
                record { same_id = h.same_id; fewer_waits = h.fewer_waits; not_eof = h.not_eof })))
        | inr f ↦ rw f (record {
          same_id = note_close-id closing s;
          fewer_waits = omega arith;
          not_eof = λ x. cc;
        })
      ])
    ])

pub record Ensured (s : EventSource) (w : World) (a : After ReadCloser) : Type 0 where
  pub same_id : a.source.last_event_id ≡ s.last_event_id
  pub fewer_waits : length a.world.waits ≤ length w.waits
  pub not_eof : a.outcome ≢ failed eof
  pub open_if_done : (rc : ReadCloser) → a.outcome ≡ done rc → a.source.closed ≡ false

keep_unless_closed-Ensured :
    (s : EventSource) (w : World) (t : EventSource) (v : World) (o : Outcome ReadCloser)
    → t.last_event_id ≡ s.last_event_id
    → length v.waits ≤ length w.waits
    → o ≢ failed eof
    → Ensured s w (keep_unless_closed (record { source = t; world = v; outcome = o }))
keep_unless_closed-Ensured s w t v (done rc) i l n = elim (Bool-cases t.closed) [
  | inl e ↦
      rw e (record { same_id = i; fewer_waits = l; not_eof = λ x. cc; open_if_done = λ r x. cc })
  | inr e ↦
      rw e (record { same_id = i; fewer_waits = l; not_eof = λ x. cc; open_if_done = λ r x. refl })
]
keep_unless_closed-Ensured s w t v (failed x) i l n = record {
  same_id = i;
  fewer_waits = l;
  not_eof = n;
  open_if_done = λ r y. cc;
}
keep_unless_closed-Ensured s w t v blocked i l n = record {
  same_id = i;
  fewer_waits = l;
  not_eof = n;
  open_if_done = λ r y. cc;
}

pub ensure_some :
    (s : EventSource) (w : World) (rc : ReadCloser)
    → s.current_read_closer ≡ some rc
    → ensure_read_closer s w ≡ record { source = s; world = w; outcome = done rc }
unfolding ensure_read_closer
ensure_some s w rc e = rw e

pub ensure_none :
    (s : EventSource) (w : World)
    → s.current_read_closer ≡ none
    → ensure_read_closer s w ≡ keep_unless_closed (establish s 0 w.replies w.waits w.requests)
unfolding ensure_read_closer establish_connection
ensure_none s w e = rw e

pub ensure-Ensured :
    (s : EventSource) (w : World) (c : Option ReadCloser)
    → s.current_read_closer ≡ c
    → s.closed ≡ false
    → Ensured s w (ensure_read_closer s w)
ensure-Ensured s w (some rc) e o = rw (ensure_some s w rc e) (record {
  same_id = refl;
  fewer_waits = omega arith;
  not_eof = λ x. cc;
  open_if_done = λ r x. o;
})
ensure-Ensured s w none e o =
    let a = establish s 0 w.replies w.waits w.requests in
    let h = establish-Attempted s 0 w.replies w.waits w.requests in
    rw (ensure_none s w e)
      (keep_unless_closed-Ensured s w a.source a.world a.outcome h.same_id h.fewer_waits h.not_eof)
