-- ===== src/Sse/RoundTrip/Pieces.antt =====
-- The reference parser on each kind of line that `encode` writes, with any `rest` behind it.
use i_drac_telemetry_referen.Common.{
  ℕ, true, false, ◌≡◌, refl, ◌∙◌, [], ◌∷◌, ◌++◌, append_assoc, append-nil, ◌==◌, Bytes, All,
  All-append,
}
use i_drac_telemetry_referen.Common.Text.{codes}
use i_drac_telemetry_referen.Sse.Event.{Event, text_line, id_line, name_line, payload_line}
use i_drac_telemetry_referen.Sse.Reader.{ReadCloser, Pending, handle_line}
use i_drac_telemetry_referen.Sse.Reader.Lines.{ends_cr, strip_cr}
use i_drac_telemetry_referen.Sse.Reader.Returns.{strip_cr_id}
use i_drac_telemetry_referen.Sse.Reader.Scan.{scan, at_line, scan_newline, scan_byte}

-- A byte that is no newline.
abbrev pub IsInline : ℕ → Type 0
IsInline c = (c == b'\n') ≡ false

-- Bytes that the reader takes for one line: no newline, and no carriage return at the end.
pub record IsLine (l : Bytes) : Type 0 where
  pub inside : All IsInline l
  pub no_cr : ends_cr l ≡ false

scan_bytes :
    (rc : ReadCloser) (p : Pending) (l current rest : Bytes)
    → All IsInline l
    → scan rc p current (l ++ b'\n' ∷ rest) ≡ at_line rc p (strip_cr (current ++ l)) rest
scan_bytes rc p [] current rest h = rw append-nil (scan_newline rc p current b'\n' rest refl)
scan_bytes rc p (c ∷ l) current rest h =
    scan_byte rc p current c (l ++ b'\n' ∷ rest) h.0
    ∙ scan_bytes rc p l (current ++ c ∷ []) rest h.1
    ∙ rw append_assoc

pub scan-IsLine :
    (rc : ReadCloser) (p : Pending) (l rest : Bytes)
    → IsLine l
    → scan rc p [] (l ++ b'\n' ∷ rest) ≡ at_line rc p l rest
scan-IsLine rc p l rest h = scan_bytes rc p l [] rest h.inside ∙ rw (strip_cr_id l h.no_cr)

ends_cr-space : (w : Bytes) → ends_cr w ≡ false → ends_cr (b' ' ∷ w) ≡ false
unfolding ends_cr
ends_cr-space [] e = refl
ends_cr-space (c ∷ cs) e = e

ends_cr-label : (l w : Bytes) → ends_cr w ≡ false → ends_cr (l ++ b' ' ∷ w) ≡ false
unfolding ends_cr
ends_cr-label [] w e = ends_cr-space w e
ends_cr-label (c ∷ []) w e = ends_cr-space w e
ends_cr-label (c ∷ d ∷ l) w e = ends_cr-label (d ∷ l) w e

-- A label of inline bytes that ends in a space keeps a line a line.
IsLine-label : (label v : Bytes) → All IsInline label → IsLine v → IsLine (label ++ b' ' ∷ v)
IsLine-label label v h lv = record {
  inside = All-append IsInline label (b' ' ∷ v) h (refl, lv.inside);
  no_cr = ends_cr-label label v lv.no_cr;
}

module _ (rc : ReadCloser) (p : Pending) where
  pub scan-label :
      (label v rest : Bytes)
      → All IsInline label
      → IsLine v
      → scan rc p [] (text_line (label ++ b' ' ∷ []) v ++ rest)
        ≡ at_line rc p (label ++ b' ' ∷ v) rest
  scan-label label v rest h lv = simp append_assoc (
      rw (← append_assoc label (b' ' ∷ v))
        (scan-IsLine rc p (label ++ b' ' ∷ v) rest (IsLine-label label v h lv)))

  pub scan-id_line :
      (e : Event) (rest : Bytes)
      → IsLine e.id
      → scan rc p [] (id_line e ++ rest)
        ≡ scan rc (record p { event = record p.event { id = e.id }; id_present = true }) [] rest
  unfolding id_line handle_line
  scan-id_line e rest h = scan-label (codes "id:") e.id rest (refl, (refl, (refl, tt))) h

  pub scan-name_line :
      (e : Event) (rest : Bytes)
      → IsLine e.name
      → scan rc p [] (name_line e ++ rest)
        ≡ scan rc (record p { event = record p.event { name = e.name } }) [] rest
  unfolding name_line handle_line
  scan-name_line e rest h =
      scan-label (codes "event:") e.name rest (refl, (refl, (refl, (refl, (refl, (refl, tt)))))) h

  pub scan-payload_line :
      (l rest : Bytes)
      → IsLine l
      → scan rc p [] (payload_line l ++ rest)
        ≡ scan rc
            (record p { event = record p.event { payload = p.event.payload ++ (l ++ b'\n' ∷ []) } })
            []
            rest
  unfolding payload_line handle_line
  scan-payload_line [] rest h =
      scan-IsLine rc p (codes "data") rest
        (record { inside = (refl, (refl, (refl, (refl, tt)))); no_cr = unfold ends_cr in refl })
  scan-payload_line (c ∷ cs) rest h =
      scan-label (codes "data:") (c ∷ cs) rest (refl, (refl, (refl, (refl, (refl, tt))))) h
