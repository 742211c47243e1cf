-- ===== src/Sse/RoundTrip.antt =====
-- What `encode` writes, `Next` reads back.
mod Pieces
mod Retry
pub mod Dataless
pub use Pieces.{IsLine}
pub use Retry.{whole_ms}
use i_drac_telemetry_referen.Common.{
  ℕ, zero, suc, ◌+◌, Bool, true, false, ◌≡◌, refl, sym, ap, ◌∙◌, inl, inr, List, [], ◌∷◌, ◌++◌,
  append_assoc, append-nil, arith, ◌==◌, ==_iff, if◌then◌else◌, Bool-cases, Bytes, All, All-append,
  some,
}
use i_drac_telemetry_referen.Common.Int.{ℤ, pos, IsInt64}
use i_drac_telemetry_referen.Sse.Errors.{Error, Result, ok}
use i_drac_telemetry_referen.Sse.Event.{
  Event, empty_event, encode, id_line, name_line, retry_part, payload_lines, split_lines,
  onto_first,
}
use i_drac_telemetry_referen.Sse.Reader.{
  ReadCloser, Pending, start, Step, dispatch, at_blank, handle_line, drop_last, deliver, next,
}
use i_drac_telemetry_referen.Sse.Reader.Buffered.{next-scan_next}
use i_drac_telemetry_referen.Sse.Reader.Lines.{strip_cr, ends_cr}
use i_drac_telemetry_referen.Sse.Reader.Scan.{scan, scan_next, at_line, scan_newline}
use Pieces.{IsInline, scan-id_line, scan-name_line, scan-payload_line}
use Retry.{scan-retry_part}

-- The lines, each with its newline.
abbrev joined : List Bytes → Bytes
joined [] = []
joined (l ∷ ls) = (l ++ b'\n' ∷ []) ++ joined ls

scan-payload_lines :
    (rc : ReadCloser) (ls : List Bytes) (p : Pending) (rest : Bytes)
    → All IsLine ls
    → scan rc p [] (payload_lines ls ++ rest)
      ≡ scan rc
          (record p { event = record p.event { payload = p.event.payload ++ joined ls } })
          []
          rest
unfolding payload_lines
scan-payload_lines rc [] p rest h = rw append-nil
scan-payload_lines rc (l ∷ ls) p rest h = rw append_assoc (
    scan-payload_line rc p l (payload_lines ls ++ rest) h.0
    ∙ scan-payload_lines rc ls _ rest h.1
    ∙ rw append_assoc)

joined-onto_first :
    (c : ℕ) (ls : List Bytes) (w : Bytes)
    → joined ls ≡ w ++ b'\n' ∷ []
    → joined (onto_first c ls) ≡ c ∷ joined ls
joined-onto_first c (l ∷ ls) w h = refl
joined-onto_first c [] [] h = cc
joined-onto_first c [] (x ∷ w) h = cc

joined-split_lines : (d : Bytes) → joined (split_lines d) ≡ d ++ b'\n' ∷ []
unfolding split_lines
joined-split_lines [] = refl
joined-split_lines (c ∷ cs) = elim (Bool-cases (c == b'\n')) [
  | inl e ↦ rw e (rw (joined-split_lines cs) (rw ((==_iff c b'\n').0 e)))
  | inr e ↦ rw e (
      joined-onto_first c (split_lines cs) cs (joined-split_lines cs)
      ∙ ap (◌∷◌ c) (joined-split_lines cs))
]

All-onto_first :
    (c : ℕ) (ls : List Bytes)
    → IsInline c
    → All (All IsInline) ls
    → All (All IsInline) (onto_first c ls)
All-onto_first c [] h hs = ((h, tt), tt)
All-onto_first c (l ∷ ls) h hs = ((h, hs.0), hs.1)

All-split_lines : (d : Bytes) → All (All IsInline) (split_lines d)
unfolding split_lines
All-split_lines [] = (tt, tt)
All-split_lines (c ∷ cs) = elim (Bool-cases (c == b'\n')) [
  | inl e ↦ rw e (tt, All-split_lines cs)
  | inr e ↦ rw e (All-onto_first c (split_lines cs) e (All-split_lines cs))
]

-- Lines that do not end in a carriage return.
abbrev pub NoReturn : Bytes → Type 0
NoReturn l = ends_cr l ≡ false

All-lines : (ls : List Bytes) → All (All IsInline) ls → All NoReturn ls → All IsLine ls
All-lines [] hs rs = tt
All-lines (l ∷ ls) hs rs = (record { inside = hs.0; no_cr = rs.0 }, All-lines ls hs.1 rs.1)

drop_last-append : (d : Bytes) (c : ℕ) → drop_last (d ++ c ∷ []) ≡ d
unfolding drop_last
drop_last-append [] c = refl
drop_last-append (x ∷ []) c = refl
drop_last-append (x ∷ y ∷ d) c = ap (◌∷◌ x) (drop_last-append (y ∷ d) c)

at_blank-append :
    (p : Pending) (d l : Bytes)
    → l ≡ d ++ b'\n' ∷ []
    → at_blank p l ≡ dispatch (record p { event = record p.event { payload = d } })
at_blank-append p [] l h = rw h (rw (drop_last-append [] b'\n'))
at_blank-append p (c ∷ d) l h = rw h (rw (drop_last-append (c ∷ d) b'\n'))

handle_line_blank :
    (p : Pending) (d : Bytes)
    → p.event.payload ≡ d ++ b'\n' ∷ []
    → handle_line p (strip_cr []) ≡ dispatch (record p { event = record p.event { payload = d } })
unfolding handle_line strip_cr
handle_line_blank p d h = at_blank-append p d p.event.payload h

pub scan_blank :
    (rc : ReadCloser) (p : Pending) (d rest : Bytes)
    → p.event.payload ≡ d ++ b'\n' ∷ []
    → scan rc p [] (b'\n' ∷ rest)
      ≡ deliver rc (record p { event = record p.event { payload = d } }) rest
scan_blank rc p d rest h =
    scan_newline rc p [] b'\n' rest refl ∙ rw (handle_line_blank p d h, at_line)

encode_lem :
    (e : Event)
    → encode e
      ≡ id_line e
        ++ (name_line e ++ (retry_part e ++ (payload_lines (split_lines e.payload) ++ b'\n' ∷ [])))
unfolding encode
encode_lem e = refl

-- What an event needs so that its text is read back.
pub record IsEncodable (e : Event) : Type 0 where
  pub id_line : IsLine e.id
  pub name_line : IsLine e.name
  pub no_returns : All NoReturn (split_lines e.payload)
  pub duration : IsInt64 e.retry

module _ (rc : ReadCloser) (e : Event) (rest : Bytes) (h : IsEncodable e) where
  scan-encode :
      scan rc (start rc) [] (encode e ++ rest)
      ≡ (record rc { last_id = e.id; stream = rest }, ok (record e { retry = whole_ms e.retry }))
  scan-encode =
      simp (encode_lem, append_assoc)
        (scan-id_line rc (start rc) e _ h.id_line
          ∙ scan-name_line rc _ e _ h.name_line
          ∙ scan-retry_part rc _ e h.duration _ refl
          ∙ scan-payload_lines rc (split_lines e.payload) _ _
              (All-lines _ (All-split_lines e.payload) h.no_returns)
          ∙ scan_blank rc _ e.payload rest (joined-split_lines e.payload))

  -- If the unread bytes begin with the text of an event whose id, name and payload lines hold no
  -- newline and do not end in a carriage return, `Next` returns that event, its retry time cut to
  -- whole milliseconds, leaves the bytes behind it, and keeps its id as the last one.
  pub next-encode :
      rc.stream ≡ encode e ++ rest
      → next rc
        ≡ some (
          record rc { last_id = e.id; stream = rest },
          ok (record e { retry = whole_ms e.retry }),
        )
  next-encode s = next-scan_next rc ∙ unfold scan_next in rw s (ap some scan-encode)
