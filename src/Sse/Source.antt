-- ===== src/Sse/Source.antt =====
-- internal/sse/event_source.go: the connection that `Next` opens, reads and opens again.
-- What blocks in Go is an input here: `replies` are the outcomes of `client.Do` and `waits` those of
-- the selects between the timer and `closed`, in the order in which the code asks for them; an
-- operation that finds its list empty is `blocked`. `requests` are the `Last-Event-ID` headers sent.
-- The lock makes each access to the fields one step; `Close` in another goroutine shows in a wait
-- that is interrupted, in a reply that came after it, or as the error of a stream.
pub mod Retries
mod Attempt
pub mod Resume
pub mod Reconnect
use i_drac_telemetry_referen.Common.{
  ℕ, zero, suc, ◌+◌, ◌%◌, Bool, true, false, not, ◌&&◌, ◌||◌, Option, none, some, List, [], ◌∷◌,
  ◌++◌, ◌==◌, ltb, leb, if◌then◌else◌, Bytes, length,
}
use i_drac_telemetry_referen.Common.Int.{ℤ, pos}
use i_drac_telemetry_referen.Sse.Errors.{
  Error, eof, source_closed, request_failed, bad_response, Result, ok, err,
}
use i_drac_telemetry_referen.Sse.Event.{Event, is_zero}
use i_drac_telemetry_referen.Sse.Reader
use i_drac_telemetry_referen.Sse.Reader.{Body, ReadCloser, new_read_closer}

pub record EventSource : Type 0 where
  pub current_read_closer : Option ReadCloser
  pub last_event_id : Bytes
  pub closed : Bool
  pub retry_interval : ℤ
  pub max_retries : ℕ

-- `createEventSource`
abbrev pub create_event_source : ℤ → ℕ → EventSource
create_event_source retry_interval max_retries = record {
  current_read_closer = none;
  last_event_id = [];
  closed = false;
  retry_interval = retry_interval;
  max_retries = max_retries;
}

-- An answer has a status, a body, and whether the source was closed before it came.
pub data Reply : Type 0 where
  refused : Reply
  answered : ℕ → Body → Bool → Reply

pub data Wait : Type 0 where
  elapsed interrupted : Wait

pub record World : Type 0 where
  pub replies : List Reply
  pub waits : List Wait
  pub requests : List Bytes

pub data Outcome {ℓ} (A : Type ℓ) : Type ℓ where
  done : A → Outcome A
  failed : Error → Outcome A
  blocked : Outcome A

pub record After (A : Type 0) : Type 0 where
  pub source : EventSource
  pub world : World
  pub outcome : Outcome A

-- `shouldRetry`
unfoldable pub should_retry : EventSource → ℕ → Bool
should_retry source retries =
    source.max_retries == 0 || (ltb 0 source.max_retries && leb retries source.max_retries)

abbrev pub dropped : EventSource → EventSource
dropped source = record source { current_read_closer = none }

abbrev pub close_seen : EventSource → EventSource
close_seen source = record source { closed = true }

-- `waitForRetry`
unfoldable pub wait_for_retry :
    EventSource → List Wait → EventSource × Outcome (Unit {0}) × List Wait
wait_for_retry source [] = (dropped source, blocked, [])
wait_for_retry source (elapsed ∷ ws) = (dropped source, done tt, ws)
wait_for_retry source (interrupted ∷ ws) = (close_seen (dropped source), failed source_closed, ws)

-- 500, 502, 503 and 504
unfoldable pub is_retriable : ℕ → Bool
is_retriable status = status == 500 || status == 502 || status == 503 || status == 504

-- `continue` after a wait, or the return of what the wait says.
abbrev pub after_wait :
    EventSource × Outcome (Unit {0}) × List Wait
    → List Reply
    → List Bytes
    → (EventSource → List Wait → After ReadCloser)
    → After ReadCloser
after_wait (s, done _, ws) rs sent k = k s ws
after_wait (s, failed e, ws) rs sent k = record {
  source = s;
  world = record { replies = rs; waits = ws; requests = sent };
  outcome = failed e;
}
after_wait (s, blocked, ws) rs sent k = record {
  source = s;
  world = record { replies = rs; waits = ws; requests = sent };
  outcome = blocked;
}

abbrev stop :
    EventSource → Outcome ReadCloser → List Reply → List Wait → List Bytes → After ReadCloser
stop source outcome rs ws sent = record {
  source = source;
  world = record { replies = rs; waits = ws; requests = sent };
  outcome = outcome;
}

abbrev pub note_close : Bool → EventSource → EventSource
note_close true source = close_seen source
note_close false source = source

-- `establishConnection`, with the `uint16` counter of failed attempts. The header of each request
-- goes to the end of `sent`.
unfoldable pub establish : EventSource → ℕ → List Reply → List Wait → List Bytes → After ReadCloser
unfolding should_retry wait_for_retry is_retriable
establish source retries [] ws sent = stop source blocked [] ws (sent ++ source.last_event_id ∷ [])
establish source retries (refused ∷ rs) ws sent =
    let retries' = (retries + 1) % 65536 in
    let sent' = sent ++ source.last_event_id ∷ [] in
    elim (should_retry source retries') [
      | false ↦ stop source (failed request_failed) rs ws sent'
      | true ↦
          after_wait (wait_for_retry source ws) rs sent' (λ s v. establish s retries' rs v sent')
    ]
establish source retries (answered status body closing ∷ rs) ws sent =
    let source' = note_close closing source in
    let sent' = sent ++ source.last_event_id ∷ [] in
    elim (status == 200) [
      | true ↦ stop source' (done (new_read_closer body)) rs ws sent'
      | false ↦ elim (is_retriable status) [
        | true ↦
            after_wait (wait_for_retry source' ws) rs sent' (λ s v. establish s retries rs v sent')
        | false ↦ stop source' (failed bad_response) rs ws sent'
      ]
    ]

unfoldable pub establish_connection : EventSource → World → After ReadCloser
unfolding establish
establish_connection source w = establish source 0 w.replies w.waits w.requests

-- The select after a connection has been opened for a source with none.
abbrev pub keep_unless_closed : After ReadCloser → After ReadCloser
keep_unless_closed a = elim a.outcome [
  | done rc ↦ if a.source.closed then record a { outcome = failed source_closed } else record a {
    source = record a.source { current_read_closer = some rc };
    outcome = done rc;
  }
  | failed e ↦ a
  | blocked ↦ a
]

-- `ensureReadCloser`
unfoldable pub ensure_read_closer : EventSource → World → After ReadCloser
unfolding establish_connection
ensure_read_closer source w = elim source.current_read_closer [
  | some rc ↦ record { source = source; world = w; outcome = done rc }
  | none ↦ keep_unless_closed (establish_connection source w)
]

-- The source after its reader, which it points to, has returned an event.
abbrev pub received : EventSource → ReadCloser → Event → EventSource
received source rc event = record source {
  current_read_closer = some rc;
  last_event_id = event.id;
  retry_interval = (if is_zero event.retry then source.retry_interval else event.retry);
}

abbrev pub is_eof : Error → Bool
is_eof eof = true
is_eof _ = false

abbrev pub closing_wait :
    EventSource × Outcome (Unit {0}) × List Wait
    → World
    → (EventSource → World → Option (After Event))
    → Option (After Event)
closing_wait (s, done _, ws) w k = k s (record w { waits = ws })
closing_wait (s, failed e, ws) w k =
    some (record { source = s; world = record w { waits = ws }; outcome = failed e })
closing_wait (s, blocked, ws) w k =
    some (record { source = s; world = record w { waits = ws }; outcome = blocked })

-- What `Next` does with its reader's answer; `again` is the next round of the loop.
unfoldable pub after_read :
    EventSource
    → World
    → ReadCloser × Result Event
    → (EventSource → World → Option (After Event))
    → Option (After Event)
unfolding wait_for_retry
after_read source w (rc, ok event) again =
    some (record { source = received source rc event; world = w; outcome = done event })
after_read source w (rc, err e) again =
    if is_eof e
    then some (record {
      source = record source { current_read_closer = some rc };
      world = w;
      outcome = failed e;
    })
    else closing_wait (wait_for_retry source w.waits) w again

-- The loop of `Next`; `none` if the fuel runs out. A round that is not the last takes a wait.
unfoldable pub next_round : ℕ → EventSource → World → Option (After Event)
next_round zero source w = none
next_round (suc fuel) source w =
    let a = ensure_read_closer source w in
    elim a.outcome [
      | failed e ↦ some (record { source = a.source; world = a.world; outcome = failed e })
      | blocked ↦ some (record { source = a.source; world = a.world; outcome = blocked })
      | done rc ↦ elim (Reader.next rc) [
        | none ↦ none
        | some r ↦ after_read a.source a.world r (next_round fuel)
      ]
    ]

-- `EventSource.Next`
unfoldable pub next : EventSource → World → Option (After Event)
unfolding next_round
next source w =
    if source.closed
    then some (record { source = source; world = w; outcome = failed source_closed })
    else next_round (suc (length w.waits)) source w

-- `EventSource.Close`: the reader stays if closing it fails.
unfoldable pub close : EventSource → EventSource × Option Error
unfolding Reader.close
close source = elim source.current_read_closer [
  | none ↦ (close_seen source, none)
  | some rc ↦
      let (rc', e) = Reader.close rc in
      elim e [
        | some x ↦ (record source { closed = true; current_read_closer = some rc' }, some x)
        | none ↦ (record source { closed = true; current_read_closer = none }, none)
      ]
]

-- `Config.Connect` and `Connect`: a source only if its first connection opens.
unfoldable pub connect : ℤ → ℕ → World → After ReadCloser
unfolding establish_connection
connect retry_interval max_retries w =
    let a = establish_connection (create_event_source retry_interval max_retries) w in
    elim a.outcome [
      | done rc ↦ record a {
        source = record a.source { current_read_closer = some rc };
        outcome = done rc;
      }
      | failed e ↦ a
      | blocked ↦ a
    ]
