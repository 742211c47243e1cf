-- ===== src/Device/Slices.antt =====
-- Slices that a loop appends to, from nil.
use i_drac_telemetry_referen.Common.{
  ◌≡◌, refl, sym, ap, ◌∙◌, Option, none, some, List, [], ◌∷◌, ◌++◌, append-nil, append_assoc,
}
use i_drac_telemetry_referen.Device.{append_to}

module _ {ℓ} {A : Type ℓ} where
  -- A slice after values have been appended to it, one by one.
  abbrev pub filled : Option (List A) → List A → Option (List A)
  filled o [] = o
  filled o (v ∷ vs) = filled (append_to o v) vs

  -- A slice with these values: nil if there are none.
  abbrev pub slice_of : List A → Option (List A)
  slice_of [] = none
  slice_of (v ∷ vs) = some (v ∷ vs)

  filled-some : (xs vs : List A) → filled (some xs) vs ≡ some (xs ++ vs)
  filled-some xs [] = ap some (sym (append-nil xs))
  filled-some xs (v ∷ vs) = filled-some (xs ++ v ∷ []) vs ∙ ap some (append_assoc xs (v ∷ []) vs)

  pub filled-none : (vs : List A) → filled none vs ≡ slice_of vs
  filled-none [] = refl
  filled-none (v ∷ vs) = filled-some (v ∷ []) vs
