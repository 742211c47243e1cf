-- ===== src/Sse/Reader/Ids.antt =====
-- What a call of `Next` does to the reader, whatever bytes it reads.
use i_drac_telemetry_referen.Common.{
  ℕ, true, suc, sym, ◌<◌, false, ◌≡◌, refl, inl, inr, some, [], ◌∷◌, ◌++◌, arith, ◌==◌, Bool-cases,
  Bytes, length, Option, none,
}
use i_drac_telemetry_referen.Common.Int.{ℤ}
use i_drac_telemetry_referen.Common.Text.{codes}
use i_drac_telemetry_referen.Sse.Errors.{Result, ok, err}
use i_drac_telemetry_referen.Sse.Event.{Event}
use i_drac_telemetry_referen.Sse.Reader.{
  ReadCloser, Pending, Step, proceed, dispatch, start, at_blank, set_field, set_retry, field_line,
  handle_line, deliver, next, split_field, trim_space, bytes_eq,
}
use i_drac_telemetry_referen.Sse.Reader.Buffered.{next-scan_next}
use i_drac_telemetry_referen.Sse.Reader.Lines.{strip_cr}
use i_drac_telemetry_referen.Sse.Reader.Scan.{scan, scan_next, scan_newline, scan_byte}

-- Until an `id` line stands in the block the event has the reader's last id.
abbrev KeepsId : ReadCloser → Pending → Type 0
KeepsId rc p = p.id_present ≡ false → p.event.id ≡ rc.last_id

-- On an event the reader's last id is the event's, and at least one byte is gone; on an error,
-- which is the stream's, all bytes are gone and the last id stays.
abbrev pub After : ReadCloser → ℕ → ReadCloser × Result Event → Type 0
After rc n (rc', ok e) = (rc'.last_id ≡ e.id) × (length rc'.stream < n)
After rc n (rc', err x) =
    (x ≡ rc.failure) × (rc'.stream ≡ []) × (rc'.last_id ≡ rc.last_id) × (rc'.failure ≡ rc.failure)

set_retry-KeepsId :
    (rc : ReadCloser) (p : Pending) (ms : Option ℤ) → KeepsId rc p → KeepsId rc (set_retry p ms)
set_retry-KeepsId rc p none h = h
set_retry-KeepsId rc p (some ms) h = h

set_field-KeepsId :
    (rc : ReadCloser) (p : Pending) (field value : Bytes)
    → KeepsId rc p
    → KeepsId rc (set_field p field value)
unfolding set_field
set_field-KeepsId rc p field value h = elim (Bool-cases (bytes_eq field (codes "id"))) [
  | inl e ↦ rw e (λ x. cc)
  | inr e ↦ rw e (elim (Bool-cases (bytes_eq field (codes "event"))) [
    | inl f ↦ rw f h
    | inr f ↦ rw f (elim (Bool-cases (bytes_eq field (codes "data"))) [
      | inl g ↦ rw g h
      | inr g ↦ rw g (elim (Bool-cases (bytes_eq field (codes "retry"))) [
        | inl r ↦ rw r (set_retry-KeepsId rc p _ h)
        | inr r ↦ rw r h
      ])
    ])
  ])
]

abbrev StepKeepsId : ReadCloser → Step → Type 0
StepKeepsId rc (proceed q) = KeepsId rc q
StepKeepsId rc (dispatch q) = KeepsId rc q

at_blank-KeepsId :
    (rc : ReadCloser) (p : Pending) (l : Bytes) → KeepsId rc p → StepKeepsId rc (at_blank p l)
at_blank-KeepsId rc p [] h = h
at_blank-KeepsId rc p (c ∷ cs) h = h

field_line-KeepsId :
    (rc : ReadCloser) (p : Pending) (line : Bytes) → KeepsId rc p → KeepsId rc (field_line p line)
unfolding field_line
field_line-KeepsId rc p line h =
    set_field-KeepsId rc p (split_field line).0 (trim_space (split_field line).1) h

handle_line_comment :
    (p : Pending) (c : ℕ) (cs : Bytes) → (c == b':') ≡ true → handle_line p (c ∷ cs) ≡ proceed p
unfolding handle_line
handle_line_comment p c cs e = rw e

handle_line_field :
    (p : Pending) (c : ℕ) (cs : Bytes)
    → (c == b':') ≡ false
    → handle_line p (c ∷ cs) ≡ proceed (field_line p (c ∷ cs))
unfolding handle_line
handle_line_field p c cs e = rw e

handle_line-KeepsId :
    (rc : ReadCloser) (p : Pending) (line : Bytes)
    → KeepsId rc p
    → StepKeepsId rc (handle_line p line)
handle_line-KeepsId rc p [] h = unfold handle_line in at_blank-KeepsId rc p p.event.payload h
handle_line-KeepsId rc p (c ∷ cs) h = elim (Bool-cases (c == b':')) [
  | inl e ↦ rw (handle_line_comment p c cs e) h
  | inr e ↦ rw (handle_line_field p c cs e) (field_line-KeepsId rc p (c ∷ cs) h)
]

deliver-After :
    (rc : ReadCloser) (p : Pending) (rest : Bytes) (n : ℕ)
    → KeepsId rc p
    → length rest < n
    → After rc n (deliver rc p rest)
deliver-After rc p rest n h l = elim (Bool-cases p.id_present) [
  | inl e ↦ rw e (refl, l)
  | inr e ↦ rw e (sym (h e), l)
]

After_mono :
    (rc : ReadCloser) (n : ℕ) (r : ReadCloser × Result Event) → After rc n r → After rc (suc n) r
After_mono rc n (rc', ok e) h = (h.0, omega arith)
After_mono rc n (rc', err x) h = h

scan-After :
    (rc : ReadCloser) (p : Pending) (current src : Bytes)
    → KeepsId rc p
    → After rc (length src) (scan rc p current src)
scan-After rc p current [] h = unfold scan in (refl, refl, refl, refl)
scan-After rc p current (c ∷ cs) h = elim (Bool-cases (c == b'\n')) [
  | inl e ↦ rw (scan_newline rc p current c cs e) (
      after_step (handle_line p (strip_cr current)) (handle_line-KeepsId rc p _ h)
        (λ q k. After_mono rc (length cs) (scan rc q [] cs) (scan-After rc q [] cs k)))
  | inr e ↦ rw (scan_byte rc p current c cs e) (
      After_mono rc (length cs) (scan rc p (current ++ c ∷ []) cs)
        (scan-After rc p (current ++ c ∷ []) cs h))
]
  where
    after_step :
        (s : Step)
        → StepKeepsId rc s
        → ((q : Pending) → KeepsId rc q → After rc (suc (length cs)) (scan rc q [] cs))
        → After rc
            (suc (length cs))
            (elim s [ proceed q ↦ scan rc q [] cs | dispatch q ↦ deliver rc q cs ])
    after_step (proceed q) k ih = ih q k
    after_step (dispatch q) k ih = deliver-After rc q cs (suc (length cs)) k (omega arith)

-- Whatever the stream holds, `Next` comes back with a reader and a result for which `After` holds.
pub next-After :
    (rc : ReadCloser)
    → (r : ReadCloser × Result Event) × (next rc ≡ some r) × After rc (length rc.stream) r
next-After rc = (
  scan_next rc,
  next-scan_next rc,
  unfold scan_next in scan-After rc (start rc) [] rc.stream (λ e. refl),
)
