-- ===== src/Json/Results.antt =====
-- Computations that have a result.
use i_drac_telemetry_referen.Common.{◌≡◌, refl, Option, none, some}
use i_drac_telemetry_referen.Json.Structs.{◌>>=◌}

-- The computation has a result, of which `P` holds.
abbrev pub Gives {ℓ} : {A : Type ℓ} → Option A → (A → Type 0) → Type 0
Gives none P = ⊥
Gives (some a) P = P a

pub Gives-bind {ℓ κ} :
    {A : Type ℓ} {B : Type κ} (P : A → Type 0) (Q : B → Type 0) (m : Option A) (f : A → Option B)
    → Gives m P
    → ((a : A) → m ≡ some a → P a → Gives (f a) Q)
    → Gives (m >>= f) Q
Gives-bind P Q none f h k = h
Gives-bind P Q (some a) f h k = k a refl h

pub Gives-weaken {ℓ} :
    {A : Type ℓ} (P Q : A → Type 0) (m : Option A) → ((a : A) → P a → Q a) → Gives m P → Gives m Q
Gives-weaken P Q none f h = h
Gives-weaken P Q (some a) f h = f a h

pub result_of_Gives {ℓ} :
    {A : Type ℓ} (P : A → Type 0) (m : Option A) → Gives m P → (a : A) × (m ≡ some a) × P a
result_of_Gives P none h = absurd h
result_of_Gives P (some a) h = (a, refl, h)
