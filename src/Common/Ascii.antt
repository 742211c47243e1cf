-- ===== src/Common/Ascii.antt =====
-- What the program uses of package strings: `ToLower` and `Contains` on ASCII bytes, `TrimSpace`
-- on code points, and on texts `ToLower` over ASCII and `Replace` of a character.
use Prim.Native.Char.{Char, code}
use Prim.Native.String.{String, char_at}
use Prim.Native.Nat.{ℕ, ◌+◌, ◌-◌}
use mathlib.Core.Bool.{Bool, true, false, ◌&&◌, ◌||◌}
use mathlib.Core.List.{[], ◌∷◌, map}
use mathlib.Core.Path.{◌≡◌, refl, ap}
use native.Mathlib.Omega.{arith}
use i_drac_telemetry_referen.Common.Lists.{Bytes}
use i_drac_telemetry_referen.Common.Tests.{leb, ◌==◌, if◌then◌else◌}

unfoldable pub lower : ℕ → ℕ
lower c = if leb b'A' c && leb c b'Z' then c + 32 else c

-- `strings.ToLower`
unfoldable pub to_lower : Bytes → Bytes
to_lower = map lower

-- `strings.HasPrefix`
unfoldable pub has_prefix : Bytes → Bytes → Bool
has_prefix s [] = true
has_prefix [] (p ∷ ps) = false
has_prefix (c ∷ cs) (p ∷ ps) = c == p && has_prefix cs ps

-- `strings.Contains`
unfoldable pub contains : Bytes → Bytes → Bool
unfolding has_prefix
contains [] p = has_prefix [] p
contains (c ∷ cs) p = has_prefix (c ∷ cs) p || contains cs p

-- `unicode.IsSpace`
unfoldable pub is_space : ℕ → Bool
is_space c =
    (leb 9 c && leb c 13)
    || c == 32
    || c == 133
    || c == 160
    || c == 5760
    || (leb 8192 c && leb c 8202)
    || c == 8232
    || c == 8233
    || c == 8239
    || c == 8287
    || c == 12288

unfoldable pub trim_left : Bytes → Bytes
unfolding is_space
trim_left [] = []
trim_left (c ∷ cs) = let rest = trim_left cs in if is_space c then rest else c ∷ cs

unfoldable before : ℕ → Bytes → Bytes
unfolding is_space
before c [] = if is_space c then [] else c ∷ []
before c (d ∷ ds) = c ∷ d ∷ ds

unfoldable pub trim_right : Bytes → Bytes
unfolding before
trim_right [] = []
trim_right (c ∷ cs) = before c (trim_right cs)

-- `strings.TrimSpace`
unfoldable pub trim_space : Bytes → Bytes
unfolding trim_left trim_right
trim_space s = trim_right (trim_left s)

abbrev lower_char : Char → Char
lower_char c =
    if leb b'A' (code c) && leb (code c) b'Z'
    then char_at "abcdefghijklmnopqrstuvwxyz" (code c - b'A')
    else c

-- `strings.ToLower` on a text
unfoldable pub lower_text : String → String
lower_text String.[] = String.[]
lower_text (String.◌∷◌ c s) = String.◌∷◌ (lower_char c) (lower_text s)

-- `strings.Replace` of every "_" by "."
unfoldable pub dotted : String → String
dotted String.[] = String.[]
dotted (String.◌∷◌ c s) = String.◌∷◌ (if code c == b'_' then "." else c) (dotted s)

-- `strings.Replace` of every space by nothing
unfoldable pub without_spaces : String → String
without_spaces String.[] = String.[]
without_spaces (String.◌∷◌ c s) =
    let rest = without_spaces s in if code c == b' ' then rest else String.◌∷◌ c rest

lower-lower : (c : ℕ) → lower (lower c) ≡ lower c
unfolding lower
lower-lower c = ground arith

pub to_lower-to_lower : (s : Bytes) → to_lower (to_lower s) ≡ to_lower s
unfolding to_lower
to_lower-to_lower [] = refl
to_lower-to_lower (c ∷ cs) = rw (lower-lower c) (ap (◌∷◌ (lower c)) (to_lower-to_lower cs))
