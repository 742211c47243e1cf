-- ===== src/Sse/Decimal.antt =====
-- What the sse package uses of Go's decimal texts: `%d` of package fmt and `strconv.Atoi`.
pub mod RoundTrip
use i_drac_telemetry_referen.Common.{
  ℕ, zero, suc, ◌+◌, ◌-◌, ◌*◌, ◌/◌, ◌%◌, ◌^◌, Bool, true, false, ◌&&◌, Option, none, some, List, [],
  ◌∷◌, ◌++◌, ltb, leb, ◌==◌, if◌then◌else◌, Bytes,
}
use i_drac_telemetry_referen.Common.Int.{ℤ, pos, negsuc, neg}

-- The digits of n, given more fuel than n has digits.
unfoldable pub digits : ℕ → ℕ → Bytes
digits zero n = []
digits (suc fuel) n =
    let high = digits fuel (n / 10) in
    if ltb n 10 then (b'0' + n) ∷ [] else high ++ ((b'0' + n % 10) ∷ [])

-- `%d`
unfoldable pub format_int : ℤ → Bytes
unfolding digits
format_int (pos n) = digits (suc n) n
format_int (negsuc n) = b'-' ∷ digits (suc (suc n)) (suc n)

abbrev pub is_digit : ℕ → Bool
is_digit c = leb b'0' c && leb c b'9'

-- The value of a run of digits read after the value `acc`.
unfoldable pub read_digits : ℕ → Bytes → Option ℕ
read_digits acc [] = some acc
read_digits acc (c ∷ cs) = if is_digit c then read_digits (acc * 10 + (c - b'0')) cs else none

-- At least one digit.
unfoldable pub read_nat : Bytes → Option ℕ
unfolding read_digits
read_nat [] = none
read_nat (c ∷ cs) = read_digits 0 (c ∷ cs)

abbrev pub in_range : ℕ → ℕ → Option ℕ
in_range limit n = if leb n limit then some n else none

abbrev pub as_pos : Option ℕ → Option ℤ
as_pos none = none
as_pos (some n) = elim (in_range (2 ^ 63 - 1) n) [ none ↦ none | some m ↦ some (pos m) ]

abbrev pub as_neg : Option ℕ → Option ℤ
as_neg none = none
as_neg (some n) = elim (in_range (2 ^ 63) n) [ none ↦ none | some m ↦ some (neg m) ]

-- `strconv.Atoi` on a 64-bit machine; `none` for a syntax or a range error.
unfoldable pub atoi : Bytes → Option ℤ
unfolding read_nat
atoi [] = none
atoi (c ∷ cs) =
    if c == b'-'
    then as_neg (read_nat cs)
    else if c == b'+'
    then as_pos (read_nat cs)
    else as_pos (read_nat (c ∷ cs))
