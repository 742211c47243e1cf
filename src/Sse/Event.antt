-- ===== src/Sse/Event.antt =====
-- internal/sse/event.go: an event and its text. Strings and byte slices are lists of bytes, and
-- `retry` is a `time.Duration`, an `int64` of nanoseconds.
use i_drac_telemetry_referen.Common.{
  ℕ, zero, suc, ◌/◌, Bool, true, false, List, [], ◌∷◌, ◌++◌, ◌==◌, if◌then◌else◌, Bytes,
}
use i_drac_telemetry_referen.Common.Int.{ℤ, pos, negsuc, neg}
use i_drac_telemetry_referen.Common.Text.{codes}
use i_drac_telemetry_referen.Sse.Decimal.{format_int}

pub record Event : Type 0 where
  pub id : Bytes
  pub name : Bytes
  pub payload : Bytes
  pub retry : ℤ

abbrev pub empty_event : Event
empty_event = record { id = []; name = []; payload = []; retry = pos 0 }

-- The first piece of a split, one byte longer.
abbrev pub onto_first : ℕ → List Bytes → List Bytes
onto_first c [] = (c ∷ []) ∷ []
onto_first c (l ∷ ls) = (c ∷ l) ∷ ls

-- `bytes.Split(s, []byte("\n"))`
unfoldable pub split_lines : Bytes → List Bytes
split_lines [] = [] ∷ []
split_lines (c ∷ cs) =
    let rest = split_lines cs in if c == b'\n' then [] ∷ rest else onto_first c rest

-- `/` on `int64`, which rounds towards zero, by a positive number.
abbrev pub quot : ℤ → ℕ → ℤ
quot (pos n) k = pos (n / k)
quot (negsuc n) k = neg (suc n / k)

abbrev pub is_zero : ℤ → Bool
is_zero (pos zero) = true
is_zero (pos (suc n)) = false
is_zero (negsuc n) = false

abbrev pub text_line : Bytes → Bytes → Bytes
text_line label value = label ++ (value ++ (b'\n' ∷ []))

unfoldable pub id_line : Event → Bytes
id_line e = text_line (codes "id: ") e.id

unfoldable pub name_line : Event → Bytes
name_line e = text_line (codes "event: ") e.name

unfoldable pub retry_line : Event → Bytes
unfolding format_int
retry_line e = text_line (codes "retry: ") (format_int (quot (quot e.retry 1000) 1000))

unfoldable pub payload_line : Bytes → Bytes
payload_line [] = codes "data\n"
payload_line (c ∷ cs) = text_line (codes "data: ") (c ∷ cs)

-- `for _, line := range lines { enc += ... }`
unfoldable pub payload_lines : List Bytes → Bytes
unfolding payload_line
payload_lines [] = []
payload_lines (l ∷ ls) = payload_line l ++ payload_lines ls

unfoldable pub retry_part : Event → Bytes
unfolding retry_line
retry_part e = if is_zero e.retry then [] else retry_line e

-- `Event.Encode`
unfoldable pub encode : Event → Bytes
unfolding id_line name_line retry_part payload_lines split_lines
encode e =
    id_line e
    ++ (name_line e ++ (retry_part e ++ (payload_lines (split_lines e.payload) ++ (b'\n' ∷ []))))
