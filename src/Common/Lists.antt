-- ===== src/Common/Lists.antt =====
-- Lists measured by native numbers, under the library's names, and the predicate on all elements.
use Prim.Native.Nat.{ℕ, zero, suc, ◌+◌}
use mathlib.Core.Logic.{◌⊎◌, inl, inr}
use mathlib.Core.Path.{◌≡◌, subst}
use mathlib.Core.List.{List, [], ◌∷◌, ◌++◌}
use mathlib.Core.List.{Permᴰ}
use mathlib.Core.Path.{sym}
use native.Mathlib.Omega.{arith}

abbrev pub Bytes : Type 0
Bytes = List ℕ

module _ {ℓ} {A : Type ℓ} where
  abbrev pub length : List A → ℕ
  length [] = 0
  length (x ∷ xs) = suc (length xs)

  abbrev pub replicate : ℕ → A → List A
  replicate zero a = []
  replicate (suc n) a = a ∷ replicate n a

  pub length-append : (xs ys : List A) → length (xs ++ ys) ≡ length xs + length ys
  length-append [] ys = omega arith
  length-append (x ∷ xs) ys = omega (arith, length-append xs ys)

abbrev pub All {ℓ κ} : {A : Type ℓ} → (A → Type κ) → List A → Type κ
All P [] = Unit
All P (x ∷ xs) = P x × All P xs

pub All-append {ℓ κ} :
    {A : Type ℓ} (P : A → Type κ) (xs ys : List A) → All P xs → All P ys → All P (xs ++ ys)
All-append P [] ys hx hy = hy
All-append P (x ∷ xs) ys hx hy = (hx.0, All-append P xs ys hx.1 hy)

-- Some element has the property.
abbrev pub Any {ℓ} : {A : Type ℓ} → (A → Type 0) → List A → Type 0
Any P [] = ⊥
Any P (x ∷ xs) = P x ⊎ Any P xs

module _ {ℓ} {A : Type ℓ} (P : A → Type 0) where
  pub Any-perm : {xs ys : List A} → Permᴰ xs ys → Any P ys → Any P xs
  Any-perm Permᴰ.nil h = h
  Any-perm (Permᴰ.cons e d) (inl h) = inl (subst P (sym e) h)
  Any-perm (Permᴰ.cons e d) (inr h) = inr (Any-perm d h)
  Any-perm (Permᴰ.swap e f) (inl h) = inr (inl (subst P (sym f) h))
  Any-perm (Permᴰ.swap e f) (inr (inl h)) = inl (subst P (sym e) h)
  Any-perm (Permᴰ.swap e f) (inr (inr h)) = inr (inr h)
  Any-perm (Permᴰ.trans d f) h = Any-perm d (Any-perm f h)

  pub All-perm : {xs ys : List A} → Permᴰ xs ys → All P ys → All P xs
  All-perm Permᴰ.nil h = h
  All-perm (Permᴰ.cons e d) h = (subst P (sym e) h.0, All-perm d h.1)
  All-perm (Permᴰ.swap e f) h = (subst P (sym e) h.1.0, (subst P (sym f) h.0, h.1.1))
  All-perm (Permᴰ.trans d f) h = All-perm d (All-perm f h)

pub Any-weaken {ℓ} :
    {A : Type ℓ} (P Q : A → Type 0) (xs : List A) → ((a : A) → P a → Q a) → Any P xs → Any Q xs
Any-weaken P Q [] f h = h
Any-weaken P Q (x ∷ xs) f (inl h) = inl (f x h)
Any-weaken P Q (x ∷ xs) f (inr h) = inr (Any-weaken P Q xs f h)
