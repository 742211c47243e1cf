-- ===== src/Sse/Decimal/RoundTrip.antt =====
-- `atoi` reads back what `format_int` prints of an `int64`.
use i_drac_telemetry_referen.Common.{
  ℕ, zero, suc, ◌+◌, ◌-◌, ◌*◌, ◌/◌, ◌%◌, ◌<◌, ◌≡◌, refl, ◌≢◌, inl, inr, some, [], ◌∷◌, ◌++◌, arith,
  ltb, if◌then◌else◌, Bool-cases, Bytes,
}
use i_drac_telemetry_referen.Common.Int.{ℤ, pos, negsuc, IsInt64}
use i_drac_telemetry_referen.Sse.Decimal.{digits, format_int, read_digits, read_nat, as_pos, atoi}

read_digits-append :
    (xs ys : Bytes) (acc n : ℕ)
    → read_digits acc xs ≡ some n
    → read_digits acc (xs ++ ys) ≡ read_digits n ys
unfolding read_digits
read_digits-append [] ys acc n h = ground arith
read_digits-append (c ∷ xs) ys acc n h =
    ground (arith, read_digits-append xs ys (acc * 10 + (c - b'0')) n)

read_digits_one :
    (acc d n : ℕ) → d < 10 → acc * 10 + d ≡ n → read_digits acc ((b'0' + d) ∷ []) ≡ some n
unfolding read_digits
read_digits_one acc d n h e = ground arith

read_digits-digits : (fuel n : ℕ) → n < fuel → read_digits 0 (digits fuel n) ≡ some n
unfolding digits
read_digits-digits zero n h = elim h [ ]
read_digits-digits (suc fuel) n h = elim (Bool-cases (ltb n 10)) [
  | inl small ↦ rw small (read_digits_one 0 n n (ground arith) (omega arith))
  | inr large ↦ rw large (
      rw
        (read_digits-append (digits fuel (n / 10)) _ 0 (n / 10)
          (read_digits-digits fuel (n / 10) (ground arith)))
        (read_digits_one (n / 10) (n % 10) n (omega arith) (omega arith)))
]

digits-ne-nil : (fuel n : ℕ) → digits (suc fuel) n ≢ []
unfolding digits
digits-ne-nil fuel n e =
    elim (digits fuel (n / 10))
        as (λ high.
          (if ltb n 10 then (b'0' + n) ∷ [] else high ++ ((b'0' + n % 10) ∷ [])) ≡ [] → ⊥) [
            | [] ↦ λ h. ground arith
            | x ∷ xs ↦ λ h. ground arith
          ]
      e

atoi_digits : (xs : Bytes) (n : ℕ) → xs ≢ [] → read_digits 0 xs ≡ some n → atoi xs ≡ as_pos (some n)
unfolding atoi read_digits
atoi_digits [] n ne h = absurd (ne refl)
atoi_digits (c ∷ cs) n ne h = ground arith

read_nat_digits : (xs : Bytes) (n : ℕ) → xs ≢ [] → read_digits 0 xs ≡ some n → read_nat xs ≡ some n
unfolding read_nat
read_nat_digits [] n ne h = absurd (ne refl)
read_nat_digits (c ∷ cs) n ne h = h

-- Every `int64` is read back from its decimal text.
pub atoi-format_int : (z : ℤ) → IsInt64 z → atoi (format_int z) ≡ some z
unfolding format_int
atoi-format_int (pos n) h =
    rw (atoi_digits _ n (digits-ne-nil n n) (read_digits-digits (suc n) n (omega arith)))
      (ground arith)
atoi-format_int (negsuc n) h =
    unfold atoi in
    rw
      (read_nat_digits _ (suc n) (digits-ne-nil (suc n) (suc n))
        (read_digits-digits (suc (suc n)) (suc n) (omega arith)))
      (ground arith)
