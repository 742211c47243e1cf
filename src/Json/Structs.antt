-- ===== src/Json/Structs.antt =====
-- Structs, slices and strings as documents: how encoding/json writes them and reads them back.
-- A slice is `none` when it is nil. Null leaves a struct or a string as it is.
use i_drac_telemetry_referen.Common.{◌≡◌, refl, Option, none, some, List, [], ◌∷◌, String}
use i_drac_telemetry_referen.Json.{Json, Items, Fields, null, str, arr, obj, nil, cons, end, field}

unfoldable pub items {ℓ} : {A : Type ℓ} → (A → Json) → List A → Items
items marshal [] = nil
items marshal (x ∷ xs) = cons (marshal x) (items marshal xs)

unfoldable pub slice {ℓ} : {A : Type ℓ} → (A → Json) → Option (List A) → Json
unfolding items
slice marshal none = null
slice marshal (some xs) = arr (items marshal xs)

infixl 5 ◌>>=◌
abbrev pub ◌>>=◌ {ℓ κ} : {A : Type ℓ} {B : Type κ} → Option A → (A → Option B) → Option B
none >>= f = none
some a >>= f = f a

-- Null leaves a string as it is.
abbrev pub set_text {ℓ} : {A : Type ℓ} → A → (String → A) → Json → Option A
set_text a set null = some a
set_text a set (str v) = some (set v)
set_text a set _ = none

abbrev pub read_text : Json → Option String
read_text j = set_text "" (λ v. v) j

unfoldable pub read_items {ℓ} : {A : Type ℓ} → (Json → Option A) → Items → Option (List A)
read_items read nil = some []
read_items read (cons j rest) = do x ← read j; xs ← read_items read rest; some (x ∷ xs)

abbrev pub set_slice {ℓ κ} :
    {A : Type ℓ} {B : Type κ} → (Json → Option B) → (Option (List B) → A) → Json → Option A
set_slice read set null = some (set none)
set_slice read set (arr items) = do xs ← read_items read items; some (set (some xs))
set_slice read set _ = none

unfoldable pub read_fields {ℓ} :
    {A : Type ℓ} → (A → String → Json → Option A) → A → Fields → Option A
read_fields set a end = some a
read_fields set a (field key j rest) = do a' ← set a key j; read_fields set a' rest

abbrev pub read_struct {ℓ} : {A : Type ℓ} → (A → String → Json → Option A) → A → Json → Option A
read_struct set a null = some a
read_struct set a (obj fields) = read_fields set a fields
read_struct set a _ = none

pub read_text-str : (s : String) → read_text (str s) ≡ some s
read_text-str s = refl

module _ {ℓ} {A : Type ℓ} (marshal : A → Json) (read : Json → Option A)
    (back : (x : A) → read (marshal x) ≡ some x) where
  pub read_items-items : (xs : List A) → read_items read (items marshal xs) ≡ some xs
  unfolding read_items items
  read_items-items [] = refl
  read_items-items (x ∷ xs) = rw (back x, read_items-items xs)

  pub set_slice-slice {κ} :
      {B : Type κ} (set : Option (List A) → B) (o : Option (List A))
      → set_slice read set (slice marshal o) ≡ some (set o)
  unfolding slice
  set_slice-slice set none = refl
  set_slice-slice set (some xs) = rw (read_items-items xs)
