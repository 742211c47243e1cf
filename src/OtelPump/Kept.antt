-- ===== src/OtelPump/Kept.antt =====
-- cmd/otelpump/otelpump.go: the points of a metric, where its enumeration holds
-- integers only.
use i_drac_telemetry_referen.Common.{
  Bool, true, false, ◌≡◌, ◌∙◌, refl, sym, ap, Option, none, some, List, [], ◌∷◌, String, All, Any,
  subst, if◌then◌else◌, ◌⊎◌, inl, inr,
}
use i_drac_telemetry_referen.Common.Dict
use i_drac_telemetry_referen.Common.Dict.{Dict}
use i_drac_telemetry_referen.Common.Int.{ℤ}
use i_drac_telemetry_referen.Common.Text.{◌==◌, eq_iff}
use i_drac_telemetry_referen.Common.Ascii.{lower_text}
use i_drac_telemetry_referen.Json.Results.{Gives, Gives-bind}
use i_drac_telemetry_referen.OtelPump.{
  Readings, Scalar, int, text, other, OtelMeta, Reading, float64, string, Dp,
}
use i_drac_telemetry_referen.OtelPump.Metrics.{
  MapOrder, Number, NumberDataPoint, add_number, Metric, metadata_of, number_of, int_of, mapped,
  point, points_of,
}

pub entry-get :
    {V : Type 0} (m : Dict V) (k : String) (v : V)
    → Dict.get m k ≡ some v
    → Any (λ e. (e.0 ≡ k) × (e.1 ≡ v)) m
unfolding Dict.get
entry-get [] k v h = cc
entry-get {V} ((j, w) ∷ m) k v h = from_first (j == k) refl h (entry-get m k v)
  where
    from_first :
        (b : Bool)
        → j == k ≡ b
        → (if b then some w else Dict.get m k) ≡ some v
        → (Dict.get m k ≡ some v → Any (λ e. (e.0 ≡ k) × (e.1 ≡ v)) m)
        → ((j ≡ k) × (w ≡ v)) ⊎ Any (λ e. (e.0 ≡ k) × (e.1 ≡ v)) m
    from_first true e h' ih = inl ((eq_iff j k).0 e, cc)
    from_first false e h' ih = inr (ih h')

abbrev pub IsInt : Scalar → Type 0
IsInt (int n) = Unit
IsInt _ = ⊥

abbrev pub IsIntEnum : Option (Dict Scalar) → Type 0
IsIntEnum none = Unit
IsIntEnum (some enum) = All (λ e. IsInt e.1) enum

int_of-Gives : (s : Scalar) → IsInt s → Gives (int_of s) (λ _. Unit)
int_of-Gives (int n) h = tt
int_of-Gives (text s) h = h
int_of-Gives other h = h

pub All-get :
    {V : Type 0} (P : V → Type 0) (m : Dict V) (k : String) (v : V)
    → All (λ e. P e.1) m
    → Dict.get m k ≡ some v
    → P v
All-get P m k v h e = from_entry m h (entry-get m k v e)
  where
    from_entry : (m : Dict _) → All (λ e. P e.1) m → Any (λ e. (e.0 ≡ k) × (e.1 ≡ v)) m → P v
    from_entry [] h i = absurd i
    from_entry (e ∷ m) h (inl i) = subst P i.1 h.0
    from_entry (e ∷ m) h (inr i) = from_entry m h.1 i

module _ (readings : Readings) where
  mapped-Gives :
      (o : Option Scalar)
      → ((s : Scalar) → o ≡ some s → IsInt s)
      → Gives (mapped readings o) (λ _. Unit)
  mapped-Gives none h = tt
  mapped-Gives (some s) h =
      Gives-bind (λ _. Unit) (λ _. Unit) (int_of s) _ (int_of-Gives s (h s refl)) λ n _ _. tt

  number_of-Gives :
      (enum : Option (Dict Scalar)) (r : Reading readings)
      → IsIntEnum enum
      → Gives (number_of readings enum r) (λ _. Unit)
  unfolding number_of
  number_of-Gives enum (float64 f) h = tt
  number_of-Gives none (string s) h = tt
  number_of-Gives (some enum) (string s) h =
      mapped-Gives (Dict.get enum (lower_text s)) λ t e. All-get IsInt enum (lower_text s) t h e

  module _ (print_int : ℤ → String) (order : MapOrder) where
    pub metadata_of-Gives :
        (enum : Dict Scalar)
        → All (λ e. IsInt e.1) enum
        → Gives (metadata_of readings print_int order enum) (λ _. Unit)
    unfolding metadata_of
    metadata_of-Gives [] h = tt
    metadata_of-Gives ((k, v) ∷ enum) h =
        Gives-bind (λ _. Unit) (λ _. Unit) (int_of v) _ (int_of-Gives v h.0)
          λ n _ _.
            Gives-bind (λ _. Unit) (λ _. Unit) (metadata_of readings print_int order enum) _
              (metadata_of-Gives enum h.1) λ rest _ _. tt

  -- A point and its number
  module _ (enum : Option (Dict Scalar)) (dp : Dp readings) (n : Number readings) where
    abbrev pub IsKept : List (Dp readings) → List (NumberDataPoint readings) → Type 0
    IsKept dps points =
        number_of readings enum dp.value ≡ some (some n)
        → Any (λ p. p ≡ dp) dps
        → Any (λ q. q ≡ point readings dp n) points

    same_number :
        (p : Dp readings) (x : Option (Number readings))
        → number_of readings enum p.value ≡ some x
        → number_of readings enum dp.value ≡ some (some n)
        → p ≡ dp
        → some x ≡ some (some n)
    same_number p x e converted same =
        sym e ∙ ap (λ q. number_of readings enum q.value) same ∙ converted

    add_number-IsKept :
        (p : Dp readings) (x : Option (Number readings)) (ps : List (Dp readings))
        (rest : List (NumberDataPoint readings))
        → number_of readings enum p.value ≡ some x
        → IsKept ps rest
        → IsKept (p ∷ ps) (add_number readings p x rest)
    add_number-IsKept p (some m) ps rest e ih converted (inl same) =
        let number = same_number p (some m) e converted same in
        let equal : m ≡ n = cc in
        inl (ap (point readings p) equal ∙ ap (λ q. point readings q n) same)
    add_number-IsKept p (some m) ps rest e ih converted (inr later) = inr (ih converted later)
    add_number-IsKept p none ps rest e ih converted (inl same) =
        let number = same_number p none e converted same in cc
    add_number-IsKept p none ps rest e ih converted (inr later) = ih converted later

    pub points_of-IsKept :
        (dps : List (Dp readings))
        → IsIntEnum enum
        → Gives (points_of readings enum dps) (IsKept dps)
    unfolding points_of
    points_of-IsKept [] ints = λ _ none_there. none_there
    points_of-IsKept (p ∷ ps) ints =
        Gives-bind (λ _. Unit) (IsKept (p ∷ ps)) (number_of readings enum p.value) _
          (number_of-Gives enum p.value ints)
          λ x e _.
            Gives-bind (IsKept ps) (IsKept (p ∷ ps)) (points_of readings enum ps) _
              (points_of-IsKept ps ints) λ rest _ ih. add_number-IsKept p x ps rest e ih

  module _ (dp : Dp readings) where
    -- An entry of a map under a key, with the point
    abbrev pub IsUnder : String → Dict (List (Dp readings)) → Type 0
    IsUnder id entries = Any (λ e. (e.0 ≡ id) × Any (λ p. p ≡ dp) e.1) entries

    -- A metric with the name of a known one, and the point with a number
    abbrev pub IsIn : Number readings → OtelMeta → List (Metric readings) → Type 0
    IsIn n om ms = Any (λ m. (m.name ≡ om.name) × Any (λ q. q ≡ point readings dp n) m.points) ms
