-- ===== src/Sse/Reader/Scan.antt =====
-- A reference parser of the event stream that knows no buffer: it goes through the bytes once and
-- handles each line at its newline. `next_loop` is compared with it.
use i_drac_telemetry_referen.Common.{
  ℕ, zero, suc, ◌+◌, true, false, ◌≡◌, refl, ◌∙◌, inl, inr, [], ◌∷◌, ◌++◌, append_assoc, append-nil,
  arith, ◌==◌, Bool-cases, Bytes, length,
}
use i_drac_telemetry_referen.Sse.Errors.{Result}
use i_drac_telemetry_referen.Sse.Event.{Event}
use i_drac_telemetry_referen.Sse.Reader.{
  ReadCloser, Pending, start, proceed, dispatch, handle_line, deliver, give_up,
}
use i_drac_telemetry_referen.Sse.Reader.Lines.{SliceEnd, found, full, at_end, read_slice, strip_cr}

-- `current` is the line read so far.
unfoldable pub scan : ReadCloser → Pending → Bytes → Bytes → ReadCloser × Result Event
scan rc p current [] = give_up rc
scan rc p current (c ∷ cs) = elim (c == b'\n') [
  | true ↦ elim (handle_line p (strip_cr current)) [
    | proceed q ↦ scan rc q [] cs
    | dispatch q ↦ deliver rc q cs
  ]
  | false ↦ scan rc p (current ++ c ∷ []) cs
]

-- The parser that starts as `Next` does.
unfoldable pub scan_next : ReadCloser → ReadCloser × Result Event
unfolding scan
scan_next rc = scan rc (start rc) [] rc.stream

abbrev pub at_line : ReadCloser → Pending → Bytes → Bytes → ReadCloser × Result Event
at_line rc p line rest = elim (handle_line p line) [
  | proceed q ↦ scan rc q [] rest
  | dispatch q ↦ deliver rc q rest
]

-- The newline that a slice leaves out of its text.
abbrev pub taken : SliceEnd → ℕ
taken found = 1
taken full = 0
taken at_end = 0

abbrev pub after_slice :
    ReadCloser → Pending → Bytes → SliceEnd → Bytes → Bytes → ReadCloser × Result Event
after_slice rc p current found text rest = at_line rc p (strip_cr (current ++ text)) rest
after_slice rc p current full text rest = scan rc p (current ++ text) rest
after_slice rc p current at_end text rest = give_up rc

after_slice_assoc :
    (rc : ReadCloser) (p : Pending) (current : Bytes) (c : ℕ) (e : SliceEnd) (text rest : Bytes)
    → after_slice rc p (current ++ c ∷ []) e text rest ≡ after_slice rc p current e (c ∷ text) rest
after_slice_assoc rc p current c found text rest = rw append_assoc
after_slice_assoc rc p current c full text rest = rw append_assoc
after_slice_assoc rc p current c at_end text rest = refl

pub scan_newline :
    (rc : ReadCloser) (p : Pending) (current : Bytes) (c : ℕ) (cs : Bytes)
    → c == b'\n' ≡ true
    → scan rc p current (c ∷ cs) ≡ at_line rc p (strip_cr current) cs
unfolding scan
scan_newline rc p current c cs e = rw (e, scan)

pub scan_byte :
    (rc : ReadCloser) (p : Pending) (current : Bytes) (c : ℕ) (cs : Bytes)
    → c == b'\n' ≡ false
    → scan rc p current (c ∷ cs) ≡ scan rc p (current ++ c ∷ []) cs
unfolding scan
scan_byte rc p current c cs e = rw (e, scan)

pub scan-read_slice :
    (rc : ReadCloser) (p : Pending) (n : ℕ) (current src : Bytes)
    → scan rc p current src
      ≡ after_slice rc p current
          (read_slice n src).reason
          (read_slice n src).text
          (read_slice n src).rest
unfolding read_slice
scan-read_slice rc p zero current src = rw append-nil
scan-read_slice rc p (suc n) current [] = unfold scan in refl
scan-read_slice rc p (suc n) current (c ∷ cs) = elim (Bool-cases (c == b'\n')) [
  | inl e ↦ rw (scan_newline rc p current c cs e) (rw (e, append-nil))
  | inr e ↦ rw (scan_byte rc p current c cs e) (
      rw e (
        scan-read_slice rc p n (current ++ c ∷ []) cs
        ∙ after_slice_assoc rc p current c (read_slice n cs).reason _ _))
]

-- What a slice takes from the source.
pub slice_length :
    (n : ℕ) (src : Bytes)
    → length src
      ≡ length (read_slice n src).text
        + length (read_slice n src).rest
        + taken (read_slice n src).reason
unfolding read_slice
slice_length zero src = omega arith
slice_length (suc n) [] = omega arith
slice_length (suc n) (c ∷ cs) = ground (arith, slice_length n cs)

pub slice_full :
    (n : ℕ) (src : Bytes) → (read_slice n src).reason ≡ full → length (read_slice n src).text ≡ n
unfolding read_slice
slice_full zero src h = refl
slice_full (suc n) [] h = cc
slice_full (suc n) (c ∷ cs) h = ground (arith, slice_full n cs)
