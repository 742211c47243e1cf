-- ===== src/Sse/Reader/Returns.antt =====
-- Carriage returns at the end of a line: what `strip_cr` and `ends_cr` do to joined pieces.
use i_drac_telemetry_referen.Common.{
  ◌+◌, ◌≤◌, true, false, ◌≡◌, ◌≢◌, refl, ap, ◌⊎◌, inl, inr, [], ◌∷◌, ◌++◌, append-nil, arith, Bytes,
  length,
}
use i_drac_telemetry_referen.Sse.Reader.Lines.{ends_cr, strip_cr}

pub strip_cr_id : (l : Bytes) → ends_cr l ≡ false → strip_cr l ≡ l
unfolding ends_cr strip_cr
strip_cr_id [] h = refl
strip_cr_id (c ∷ []) h = ground arith
strip_cr_id (c ∷ d ∷ cs) h = ap (◌∷◌ c) (strip_cr_id (d ∷ cs) h)

pub strip_cr-append_cr : (l : Bytes) → ends_cr l ≡ true → strip_cr l ++ b'\r' ∷ [] ≡ l
unfolding ends_cr strip_cr
strip_cr-append_cr [] h = cc
strip_cr-append_cr (c ∷ []) h = ground arith
strip_cr-append_cr (c ∷ d ∷ cs) h = ap (◌∷◌ c) (strip_cr-append_cr (d ∷ cs) h)

pub strip_cr-append : (p l : Bytes) → l ≢ [] → strip_cr (p ++ l) ≡ p ++ strip_cr l
unfolding strip_cr
strip_cr-append [] l ne = refl
strip_cr-append (c ∷ []) [] ne = absurd (ne refl)
strip_cr-append (c ∷ []) (d ∷ l) ne = refl
strip_cr-append (c ∷ d ∷ p) l ne = ap (◌∷◌ c) (strip_cr-append (d ∷ p) l ne)

pub length-strip_cr : (l : Bytes) → length l ≤ length (strip_cr l) + 1
unfolding strip_cr
length-strip_cr [] = omega arith
length-strip_cr (c ∷ []) = ground arith
length-strip_cr (c ∷ d ∷ cs) = omega (arith, length-strip_cr (d ∷ cs))

pub ends_cr-append : (p l : Bytes) → l ≢ [] → ends_cr (p ++ l) ≡ ends_cr l
unfolding ends_cr
ends_cr-append [] l ne = refl
ends_cr-append (c ∷ []) [] ne = absurd (ne refl)
ends_cr-append (c ∷ []) (d ∷ l) ne = refl
ends_cr-append (c ∷ d ∷ p) l ne = ends_cr-append (d ∷ p) l ne

pub strip_cr-append_ready :
    (p l : Bytes) → (ends_cr p ≡ false) ⊎ (l ≢ []) → strip_cr (p ++ l) ≡ p ++ strip_cr l
strip_cr-append_ready p (d ∷ l) h = strip_cr-append p (d ∷ l) (λ e. cc)
strip_cr-append_ready p [] (inl h) = unfold strip_cr in rw append-nil (strip_cr_id p h)
strip_cr-append_ready p [] (inr ne) = absurd (ne refl)
