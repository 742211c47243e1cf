-- ===== src/Tests/Fixtures.antt =====
-- Instances of the parameters that the tests share: documents as their own text, and integers in
-- unary.
use i_drac_telemetry_referen.Common.{
  ℕ, zero, suc, ◌≡◌, refl, ap, Option, some, String, if◌then◌else◌,
}
use i_drac_telemetry_referen.Common.Int.{ℤ, pos, negsuc}
use i_drac_telemetry_referen.Common.Text.{◌==◌}
use i_drac_telemetry_referen.Json.{Json, JsonText}
use i_drac_telemetry_referen.Auth.{IntText}

abbrev ones : ℕ → String
ones zero = String.[]
ones (suc n) = String.◌∷◌ "1" (ones n)

abbrev unary : ℤ → String
unary (pos n) = ones n
unary (negsuc n) = String.◌∷◌ "-" (ones n)

abbrev size : String → ℕ
size String.[] = 0
size (String.◌∷◌ c s) = suc (size s)

abbrev read_unary : String → Option ℤ
read_unary String.[] = some (pos 0)
read_unary (String.◌∷◌ c s) =
    if String.◌∷◌ c "" == "-" then some (negsuc (size s)) else some (pos (suc (size s)))

size-ones : (n : ℕ) → size (ones n) ≡ n
size-ones zero = refl
size-ones (suc n) = ap suc (size-ones n)

pub read_unary-unary : (i : ℤ) → read_unary (unary i) ≡ some i
read_unary-unary (pos zero) = refl
read_unary-unary (pos (suc n)) = ap (λ m. some (pos (suc m))) (size-ones n)
read_unary-unary (negsuc n) = ap (λ m. some (negsuc m)) (size-ones n)

abbrev pub unary_text : IntText
unary_text = record { print_int = unary; read_int = read_unary; read-print = read_unary-unary }

abbrev pub trees : JsonText
trees = record { Text = Json; print = λ j. j; parse = λ j. some j; parse-print = λ j. refl }
