-- ===== src/Sse/RoundTrip/Retry.antt =====
-- The retry line: whole milliseconds go through the decimal text, and the rest is lost.
use native.Mathlib.Nat.{zero-div}
use i_drac_telemetry_referen.Common.{
  ℕ, zero, suc, ◌+◌, ◌*◌, ◌/◌, ◌%◌, ◌<◌, ◌^◌, ◌≤◌, true, false, ◌≡◌, refl, ap, ◌∙◌, inl, inr, [],
  ◌∷◌, ◌++◌, arith, ltb, ◌==◌, Bool-cases, Bytes, All, All-append,
}
use i_drac_telemetry_referen.Common.Int.{ℤ, pos, neg, negsuc, mul_int64, IsInt64}
use i_drac_telemetry_referen.Common.Text.{codes}
use i_drac_telemetry_referen.Sse.Decimal.{digits, format_int}
use i_drac_telemetry_referen.Sse.Decimal.RoundTrip.{atoi-format_int}
use i_drac_telemetry_referen.Sse.Event.{Event, retry_line, retry_part, quot, is_zero}
use i_drac_telemetry_referen.Sse.Reader.{ReadCloser, Pending, handle_line}
use i_drac_telemetry_referen.Sse.Reader.Lines.{ends_cr}
use i_drac_telemetry_referen.Sse.Reader.Scan.{scan}
use i_drac_telemetry_referen.Sse.RoundTrip.Pieces.{IsLine, scan-label}

-- A duration cut to whole milliseconds, towards zero.
abbrev pub whole_ms : ℤ → ℤ
whole_ms (pos n) = pos (n / 1000000 * 1000000)
whole_ms (negsuc n) = neg (suc n / 1000000 * 1000000)

abbrev IsPlain : ℕ → Type 0
IsPlain c = ((c == b'\n') ≡ false) × ((c == b'\r') ≡ false)

IsPlain-digit : (d : ℕ) → d < 10 → IsPlain (b'0' + d)
IsPlain-digit d h = ground arith

All-IsPlain-digits : (fuel n : ℕ) → All IsPlain (digits fuel n)
unfolding digits
All-IsPlain-digits zero n = tt
All-IsPlain-digits (suc fuel) n = elim (Bool-cases (ltb n 10)) [
  | inl e ↦ rw e (IsPlain-digit n (ground arith), tt)
  | inr e ↦ rw e (
      All-append IsPlain (digits fuel (n / 10)) _ (All-IsPlain-digits fuel (n / 10))
        (IsPlain-digit (n % 10) (omega arith), tt))
]

All-IsPlain-format_int : (z : ℤ) → All IsPlain (format_int z)
unfolding format_int
All-IsPlain-format_int (pos n) = All-IsPlain-digits (suc n) n
All-IsPlain-format_int (negsuc n) = ((refl, refl), All-IsPlain-digits (suc (suc n)) (suc n))

IsLine-plain : (l : Bytes) → All IsPlain l → IsLine l
unfolding ends_cr
IsLine-plain [] h = record { inside = tt; no_cr = refl }
IsLine-plain (c ∷ []) h = record { inside = (h.0.0, tt); no_cr = h.0.1 }
IsLine-plain (c ∷ d ∷ cs) h =
    let rest = IsLine-plain (d ∷ cs) h.1 in
    record { inside = (h.0.0, rest.inside); no_cr = rest.no_cr }

quot-neg : (m k : ℕ) → quot (neg m) k ≡ neg (m / k)
quot-neg zero k = rw zero-div
quot-neg (suc m) k = refl

IsInt64-neg : (m : ℕ) → m ≤ 2 ^ 63 → IsInt64 (neg m)
IsInt64-neg zero h = omega arith
IsInt64-neg (suc m) h = omega arith

mul_int64-neg : (m : ℕ) → m * 1000000 ≤ 2 ^ 63 → mul_int64 (neg m) 1000000 ≡ neg (m * 1000000)
unfolding mul_int64
mul_int64-neg zero h = refl
mul_int64-neg (suc m) h = ground arith

IsInt64-quot : (r : ℤ) → IsInt64 r → IsInt64 (quot (quot r 1000) 1000)
IsInt64-quot (pos n) h = omega arith
IsInt64-quot (negsuc n) h =
    rw (quot-neg (suc n / 1000) 1000) (IsInt64-neg (suc n / 1000 / 1000) (omega arith))

mul-quot : (r : ℤ) → IsInt64 r → mul_int64 (quot (quot r 1000) 1000) 1000000 ≡ whole_ms r
mul-quot (pos n) h = unfold mul_int64 in ground arith
mul-quot (negsuc n) h =
    rw (quot-neg (suc n / 1000) 1000)
      (mul_int64-neg (suc n / 1000 / 1000) (omega arith) ∙ ap neg (omega arith))

module _ (rc : ReadCloser) (p : Pending) (e : Event) (h : IsInt64 e.retry) (rest : Bytes) where
  scan-retry_line :
      scan rc p [] (retry_line e ++ rest)
      ≡ scan rc (record p { event = record p.event { retry = whole_ms e.retry } }) [] rest
  unfolding retry_line
  scan-retry_line =
      scan-label rc p (codes "retry:") (format_int (quot (quot e.retry 1000) 1000)) rest
        (refl, (refl, (refl, (refl, (refl, (refl, tt))))))
        (IsLine-plain _ (All-IsPlain-format_int (quot (quot e.retry 1000) 1000)))
      ∙ unfold handle_line in
        rw (atoi-format_int (quot (quot e.retry 1000) 1000) (IsInt64-quot e.retry h))
          (rw (mul-quot e.retry h))

  is_zero-whole_ms : is_zero e.retry ≡ true → whole_ms e.retry ≡ pos 0
  is_zero-whole_ms z = zero_cases e.retry z
    where
      zero_cases : (r : ℤ) → is_zero r ≡ true → whole_ms r ≡ pos 0
      zero_cases (pos zero) z = refl
      zero_cases (pos (suc n)) z = cc
      zero_cases (negsuc n) z = cc

  -- With no retry line the field is left as it was.
  pub scan-retry_part :
      p.event.retry ≡ pos 0
      → scan rc p [] (retry_part e ++ rest)
        ≡ scan rc (record p { event = record p.event { retry = whole_ms e.retry } }) [] rest
  unfolding retry_part
  scan-retry_part fresh = elim (Bool-cases (is_zero e.retry)) [
    | inl z ↦ rw z (rw (is_zero-whole_ms z) (rw (← fresh) refl))
    | inr z ↦ rw z scan-retry_line
  ]
