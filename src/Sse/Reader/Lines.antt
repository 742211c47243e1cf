-- ===== src/Sse/Reader/Lines.antt =====
-- `bufio.Reader.ReadLine` over a buffer of `size` bytes, as read_closer.go uses it.
use i_drac_telemetry_referen.Common.{
  ℕ, zero, suc, Bool, true, false, [], ◌∷◌, ◌==◌, if◌then◌else◌, Bytes,
}

pub data SliceEnd : Type 0 where
  found full at_end : SliceEnd

pub record Slice : Type 0 where
  pub text : Bytes
  pub reason : SliceEnd
  pub rest : Bytes

-- `ReadSlice('\n')`: up to the newline, which `found` stands for, or a full buffer, or the end.
unfoldable pub read_slice : ℕ → Bytes → Slice
read_slice zero src = record { text = []; reason = full; rest = src }
read_slice (suc n) [] = record { text = []; reason = at_end; rest = [] }
read_slice (suc n) (c ∷ cs) =
    let later = read_slice n cs in
    if c == b'\n'
    then record { text = []; reason = found; rest = cs }
    else record later { text = c ∷ later.text }

-- One carriage return at the end.
unfoldable pub ends_cr : Bytes → Bool
ends_cr [] = false
ends_cr (c ∷ []) = c == b'\r'
ends_cr (c ∷ d ∷ cs) = ends_cr (d ∷ cs)

unfoldable pub strip_cr : Bytes → Bytes
strip_cr [] = []
strip_cr (c ∷ []) = if c == b'\r' then [] else c ∷ []
strip_cr (c ∷ d ∷ cs) = c ∷ strip_cr (d ∷ cs)

pub data ReadLine : Type 0 where
  at_error : ReadLine
  -- line, isPrefix and what is left in the reader
  piece : Bytes → Bool → Bytes → ReadLine

-- A full buffer gives its last carriage return back, and the end of input is an error only if no
-- byte stands before it.
unfoldable pub line_of_slice : SliceEnd → Bytes → Bytes → ReadLine
unfolding ends_cr strip_cr
line_of_slice found text rest = piece (strip_cr text) false rest
line_of_slice full text rest =
    piece (strip_cr text) true (if ends_cr text then b'\r' ∷ rest else rest)
line_of_slice at_end [] rest = at_error
line_of_slice at_end (c ∷ cs) rest = piece (c ∷ cs) false rest

unfoldable pub read_line : ℕ → Bytes → ReadLine
unfolding read_slice line_of_slice
read_line size src = let s = read_slice size src in line_of_slice s.reason s.text s.rest
