-- ===== src/Sse/Reader/Buffered.antt =====
-- The loop of `Next` over a reader's buffer is the reference parser, whatever the buffer's size.
use i_drac_telemetry_referen.Common.{
  ℕ, zero, suc, ◌+◌, ◌≤◌, ◌<◌, Bool, true, false, ◌≡◌, ◌≢◌, refl, ap, ◌∙◌, ◌⊎◌, inl, inr, Option,
  some, [], ◌∷◌, ◌++◌, append_assoc, arith, ◌==◌, Bool-cases, Bytes, length,
}
use i_drac_telemetry_referen.Sse.Errors.{Result}
use i_drac_telemetry_referen.Sse.Event.{Event}
use i_drac_telemetry_referen.Sse.Reader.{
  ReadCloser, Pending, start, Step, proceed, dispatch, field_line, handle_line, deliver, give_up,
  next_loop, next, buffer_size,
}
use i_drac_telemetry_referen.Sse.Reader.Lines.{
  SliceEnd, found, full, at_end, read_slice, ends_cr, strip_cr, ReadLine, at_error, piece,
  line_of_slice, read_line,
}
use i_drac_telemetry_referen.Sse.Reader.Returns.{
  strip_cr_id, strip_cr-append_cr, ends_cr-append, strip_cr-append_ready,
}
use i_drac_telemetry_referen.Sse.Reader.Scan.{
  scan, scan_next, at_line, after_slice, taken, scan_byte, scan-read_slice, slice_length,
  slice_full,
}

abbrev starts_cr : Bytes → Bool
starts_cr [] = false
starts_cr (c ∷ cs) = c == b'\r'

-- A piece whose carriage return was given back is followed by it.
abbrev IsReady : Bytes → Bytes → Type 0
IsReady prefix unread = (ends_cr prefix ≡ false) ⊎ (starts_cr unread ≡ true)

slice-IsReady :
    (size : ℕ) (prefix unread : Bytes)
    → 2 ≤ size
    → IsReady prefix unread
    → (ends_cr prefix ≡ false) ⊎ ((read_slice size unread).text ≢ [])
unfolding read_slice
slice-IsReady zero prefix unread h r = absurd (omega arith)
slice-IsReady (suc n) prefix unread h (inl r) = inl r
slice-IsReady (suc n) prefix [] h (inr r) = cc
slice-IsReady (suc n) prefix (c ∷ cs) h (inr r) = inr (ground arith)

slice_end :
    (n : ℕ) (src : Bytes) → (read_slice n src).reason ≡ at_end → (read_slice n src).rest ≡ []
unfolding read_slice
slice_end zero src h = cc
slice_end (suc n) [] h = refl
slice_end (suc n) (c ∷ cs) h = ground (arith, slice_end n cs)

append-cons-ne-nil : (xs : Bytes) (y : ℕ) (ys : Bytes) → xs ++ y ∷ ys ≢ []
append-cons-ne-nil [] y ys e = cc
append-cons-ne-nil (x ∷ xs) y ys e = cc

handle_line_nonempty :
    (p : Pending) (line : Bytes) → line ≢ [] → (q : Pending) × (handle_line p line ≡ proceed q)
unfolding handle_line
handle_line_nonempty p [] ne = absurd (ne refl)
handle_line_nonempty p (c ∷ cs) ne = elim (Bool-cases (c == b':')) [
  | inl e ↦ (p, rw e)
  | inr e ↦ (field_line p (c ∷ cs), rw e)
]

module _ (size fuel : ℕ) (rc : ReadCloser) (big : 2 ≤ size)
    (ih : (p : Pending) (prefix unread : Bytes)
      → length unread < fuel
      → IsReady prefix unread
      → next_loop size fuel rc p prefix unread ≡ some (scan rc p prefix unread)) where
  after_line :
      (s : Step) (rest : Bytes)
      → length rest < fuel
      → elim s [
        | proceed q ↦ next_loop size fuel rc q [] rest
        | dispatch q ↦ some (deliver rc q rest)
      ]
        ≡ some (elim s [ proceed q ↦ scan rc q [] rest | dispatch q ↦ deliver rc q rest ])
  after_line (proceed q) rest h = ih q [] rest h (inl (unfold ends_cr in refl))
  after_line (dispatch q) rest h = refl

  abbrev body : Pending → Bytes → ReadLine → Option (ReadCloser × Result Event)
  body p prefix r = elim r [
    | at_error ↦ some (give_up rc)
    | piece line true rest ↦ next_loop size fuel rc p (prefix ++ line) rest
    | piece line false rest ↦ elim (handle_line p (prefix ++ line)) [
      | proceed q ↦ next_loop size fuel rc q [] rest
      | dispatch q ↦ some (deliver rc q rest)
    ]
  ]

  module _ (p : Pending) (prefix : Bytes) where
    after_full :
        (text rest : Bytes)
        → length text ≡ size
        → length text + length rest ≤ fuel
        → body p prefix (line_of_slice full text rest) ≡ some (scan rc p (prefix ++ text) rest)
    unfolding line_of_slice
    after_full [] rest l h = absurd (omega arith)
    after_full (c ∷ cs) rest l h = elim (Bool-cases (ends_cr (c ∷ cs))) [
      | inl e ↦ rw e (
          ih p (prefix ++ strip_cr (c ∷ cs)) (b'\r' ∷ rest) (omega arith) (inr refl)
          ∙ ap some (
              scan_byte rc p (prefix ++ strip_cr (c ∷ cs)) b'\r' rest refl
              ∙ rw append_assoc (rw (strip_cr-append_cr (c ∷ cs) e))))
      | inr e ↦ rw e (
          rw (strip_cr_id (c ∷ cs) e) (
            ih p (prefix ++ c ∷ cs) rest (omega arith)
              (inl (ends_cr-append prefix (c ∷ cs) (λ x. cc) ∙ e))))
    ]

    after_end :
        (text rest : Bytes)
        → rest ≡ []
        → length text + length rest ≤ fuel
        → body p prefix (line_of_slice at_end text rest) ≡ some (give_up rc)
    unfolding line_of_slice
    after_end [] rest e h = refl
    after_end (c ∷ cs) rest e h =
        let (q, handled) =
          handle_line_nonempty p (prefix ++ c ∷ cs) (append-cons-ne-nil prefix c cs) in
        rw (handled, body)
          (ih q [] rest (omega arith) (inl (unfold ends_cr in refl)) ∙ rw e (unfold scan in refl))

    after_found :
        (text rest : Bytes)
        → (ends_cr prefix ≡ false) ⊎ (text ≢ [])
        → length rest < fuel
        → body p prefix (line_of_slice found text rest)
          ≡ some (at_line rc p (strip_cr (prefix ++ text)) rest)
    unfolding line_of_slice
    after_found text rest r h =
        rw (strip_cr-append_ready prefix text r)
          (after_line (handle_line p (prefix ++ strip_cr text)) rest h)

    round :
        (e : SliceEnd) (text rest : Bytes)
        → length text + length rest + taken e < suc fuel
        → (e ≡ full → length text ≡ size)
        → (e ≡ at_end → rest ≡ [])
        → (ends_cr prefix ≡ false) ⊎ (text ≢ [])
        → body p prefix (line_of_slice e text rest) ≡ some (after_slice rc p prefix e text rest)
    round found text rest h f a r = after_found text rest r (omega arith)
    round full text rest h f a r = after_full text rest (f refl) (omega arith)
    round at_end text rest h f a r = after_end text rest (a refl) (omega arith)

next_loop-scan :
    (size fuel : ℕ) (rc : ReadCloser) (p : Pending) (prefix unread : Bytes)
    → 2 ≤ size
    → length unread < fuel
    → IsReady prefix unread
    → next_loop size fuel rc p prefix unread ≡ some (scan rc p prefix unread)
unfolding next_loop read_line
next_loop-scan size zero rc p prefix unread big h r = elim h [ ]
next_loop-scan size (suc fuel) rc p prefix unread big h r =
    rw (scan-read_slice rc p size prefix unread) (
      round size fuel rc big (λ q x y l i. next_loop-scan size fuel rc q x y big l i) p prefix
        (read_slice size unread).reason (read_slice size unread).text (read_slice size unread).rest
        (omega (arith, slice_length size unread)) (slice_full size unread) (slice_end size unread)
        (slice-IsReady size prefix unread big r))

-- A call of `Next` always comes back: with the event or the error that the reference parser finds
-- in the unread bytes, and with the same bytes left, though lines longer than the buffer arrive in
-- pieces.
pub next-scan_next : (rc : ReadCloser) → next rc ≡ some (scan_next rc)
unfolding next scan_next
next-scan_next rc =
    next_loop-scan buffer_size (suc (length rc.stream)) rc (start rc) [] rc.stream (omega arith)
      (omega arith) (inl (unfold ends_cr in refl))
