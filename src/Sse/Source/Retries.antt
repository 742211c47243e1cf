-- ===== src/Sse/Source/Retries.antt =====
-- How often a connection is tried: `shouldRetry` and the `uint16` counter.
use i_drac_telemetry_referen.Common.{
  ℕ, zero, suc, ◌+◌, ◌%◌, ◌<◌, ◌≤◌, Bool, true, false, ◌≡◌, ◌≢◌, refl, ◌∙◌, ◌⊎◌, inl, inr, List, [],
  ◌∷◌, ◌++◌, append_assoc, arith, replicate, Bytes, ◌==◌, Bool-cases,
}
use i_drac_telemetry_referen.Sse.Errors.{request_failed, bad_response}
use i_drac_telemetry_referen.Sse.Reader.{Body, ReadCloser, new_read_closer}
use i_drac_telemetry_referen.Sse.Source.{
  EventSource, Reply, refused, answered, Wait, elapsed, interrupted, done, failed, After,
  should_retry, dropped, wait_for_retry, is_retriable, establish, note_close, after_wait,
}

should_retry-le : (s : EventSource) (r : ℕ) → 0 < r → r ≤ s.max_retries → should_retry s r ≡ true
unfolding should_retry
should_retry-le s r p h = ground arith

should_retry-lt :
    (s : EventSource) (r : ℕ) → 0 < s.max_retries → s.max_retries < r → should_retry s r ≡ false
unfolding should_retry
should_retry-lt s r p h = ground arith

module _ (s : EventSource) (n : ℕ) (rs : List Reply) (ws : List Wait) (sent : List Bytes) where
  pub establish_stop :
      should_retry s ((n + 1) % 65536) ≡ false
      → establish s n (refused ∷ rs) ws sent ≡ record {
        source = s;
        world = record { replies = rs; waits = ws; requests = sent ++ s.last_event_id ∷ [] };
        outcome = failed request_failed;
      }
  unfolding establish
  establish_stop e = rw (e, establish)

  pub establish_retry :
      should_retry s ((n + 1) % 65536) ≡ true
      → establish s n (refused ∷ rs) ws sent
        ≡ after_wait
            (wait_for_retry s ws)
            rs
            (sent ++ s.last_event_id ∷ [])
            (λ t v. establish t ((n + 1) % 65536) rs v (sent ++ s.last_event_id ∷ []))
  unfolding establish
  establish_retry e = rw (e, establish)

  pub establish_answered :
      (status : ℕ) (body : Body) (closing : Bool)
      → establish s n (answered status body closing ∷ rs) ws sent ≡ elim (status == 200) [
        | true ↦ record {
          source = note_close closing s;
          world = record { replies = rs; waits = ws; requests = sent ++ s.last_event_id ∷ [] };
          outcome = done (new_read_closer body);
        }
        | false ↦ elim (is_retriable status) [
          | true ↦
              after_wait
                (wait_for_retry (note_close closing s) ws)
                rs
                (sent ++ s.last_event_id ∷ [])
                (λ t v. establish t n rs v (sent ++ s.last_event_id ∷ []))
          | false ↦ record {
            source = note_close closing s;
            world = record { replies = rs; waits = ws; requests = sent ++ s.last_event_id ∷ [] };
            outcome = failed bad_response;
          }
        ]
      ]
  unfolding establish
  establish_answered status body closing = refl

wait_elapsed :
    (s : EventSource) (rs : List Reply) (ws : List Wait) (sent : List Bytes)
    (k : EventSource → List Wait → After ReadCloser)
    → after_wait (wait_for_retry s (elapsed ∷ ws)) rs sent k ≡ k (dropped s) ws
unfolding wait_for_retry
wait_elapsed s rs ws sent k = refl

small_count : (n : ℕ) → n < 65535 → (n + 1) % 65536 ≡ n + 1
small_count n h = omega arith

-- With a limit of retries from 1 to 65534, one refused request more than the limit ends the
-- attempt with the request's error: after one wait for each retry, with every request carrying the
-- source's last event id, and with later replies and waits not asked for. `n` requests have been
-- refused before.
pub establish_gives_up :
    (s : EventSource) (n k : ℕ) (rs : List Reply) (ws : List Wait) (sent : List Bytes)
    → n + k ≡ s.max_retries
    → 0 < s.max_retries
    → s.max_retries < 65535
    → establish (dropped s) n (replicate (suc k) refused ++ rs) (replicate k elapsed ++ ws) sent
      ≡ record {
        source = dropped s;
        world = record {
          replies = rs;
          waits = ws;
          requests = sent ++ replicate (suc k) s.last_event_id;
        };
        outcome = failed request_failed;
      }
establish_gives_up s n zero rs ws sent e pos small =
    establish_stop (dropped s) n rs ws sent
      (should_retry-lt (dropped s) ((n + 1) % 65536) pos (omega arith))
establish_gives_up s n (suc k) rs ws sent e pos small =
    establish_retry (dropped s) n _ _ sent
      (should_retry-le (dropped s) ((n + 1) % 65536) (omega arith) (omega arith))
    ∙ wait_elapsed (dropped s) _ _ _ _
    ∙ rw (small_count n (omega arith)) (
        establish_gives_up s (n + 1) k rs ws (sent ++ s.last_event_id ∷ []) (omega arith) pos small
        ∙ rw append_assoc)

abbrev IsUnlimited : EventSource → Type 0
IsUnlimited s = (s.max_retries ≡ 0) ⊎ (s.max_retries ≡ 65535)

should_retry_unlimited :
    (s : EventSource) (r : ℕ) → IsUnlimited s → r < 65536 → should_retry s r ≡ true
unfolding should_retry
should_retry_unlimited s r h l = ground arith

-- The attempt did not end because the requests were refused.
abbrev NotRefused : After ReadCloser → Type 0
NotRefused a = a.outcome ≢ failed request_failed

after_wait-NotRefused :
    (s : EventSource) (rs : List Reply) (ws : List Wait) (sent : List Bytes)
    (k : EventSource → List Wait → After ReadCloser)
    → ((v : List Wait) → NotRefused (k (dropped s) v))
    → NotRefused (after_wait (wait_for_retry s ws) rs sent k)
unfolding wait_for_retry
after_wait-NotRefused s rs [] sent k h = λ e. cc
after_wait-NotRefused s rs (elapsed ∷ ws) sent k h = h ws
after_wait-NotRefused s rs (interrupted ∷ ws) sent k h = λ e. cc

max_retries-note_close : (c : Bool) (s : EventSource) → (note_close c s).max_retries ≡ s.max_retries
max_retries-note_close true s = refl
max_retries-note_close false s = refl

-- With a limit of 0, and also with the largest limit, 65535, no number of refused requests ends the
-- attempt with their error: the counter never passes the limit.
pub establish_unlimited :
    (s : EventSource) (n : ℕ) (rs : List Reply) (ws : List Wait) (sent : List Bytes)
    → (s.max_retries ≡ 0) ⊎ (s.max_retries ≡ 65535)
    → (establish s n rs ws sent).outcome ≢ failed request_failed
establish_unlimited s n [] ws sent u = unfold establish in λ e. cc
establish_unlimited s n (refused ∷ rs) ws sent u =
    rw (establish_retry s n rs ws sent (should_retry_unlimited s _ u (omega arith))) (
      after_wait-NotRefused s rs ws _ _
        (λ v. establish_unlimited (dropped s) ((n + 1) % 65536) rs v _ u))
establish_unlimited s n (answered status body closing ∷ rs) ws sent u =
    rw (establish_answered s n rs ws sent status body closing) (elim (Bool-cases (status == 200)) [
      | inl e ↦ rw e (λ x. cc)
      | inr e ↦ rw e (elim (Bool-cases (is_retriable status)) [
        | inl f ↦ rw f (
            after_wait-NotRefused (note_close closing s) rs ws _ _ (λ v.
              establish_unlimited (dropped (note_close closing s)) n rs v _
                (rw (max_retries-note_close closing s) u)))
        | inr f ↦ rw f (λ x. cc)
      ])
    ])
