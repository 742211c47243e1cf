-- ===== src/Device/Labels.antt =====
-- pkg/redfishread/redfishdevice.go: the id, the context and the label of a metric value.
use Prim.Native.Char.{Char}
use i_drac_telemetry_referen.Common.{
  ℕ, zero, suc, ◌/◌, ◌%◌, Bool, false, ◌&&◌, ◌||◌, String, if◌then◌else◌, ltb,
}
use i_drac_telemetry_referen.Common.Text.{◌==◌, append}
use i_drac_telemetry_referen.Json.{Fields}
use i_drac_telemetry_referen.Redfish.{Outcome, value, ◌>>=◌, member, has, as_text, as_object}

abbrev is_char : Char → Char → Bool
is_char c d = String.◌∷◌ c "" == String.◌∷◌ d ""

unfoldable pub has_slash : String → Bool
has_slash String.[] = false
has_slash (String.◌∷◌ c s) = is_char c "/" || has_slash s

-- What stands behind the last slash; all of the text if there is none.
unfoldable pub after_last_slash : String → String
unfolding has_slash
after_last_slash String.[] = String.[]
after_last_slash (String.◌∷◌ c s) =
    let rest = after_last_slash s in
    if has_slash s then rest else if is_char c "/" then s else String.◌∷◌ c s

-- `strings.ReplaceAll` of "#" by "_"
unfoldable pub replace_hashes : String → String
replace_hashes String.[] = String.[]
replace_hashes (String.◌∷◌ c s) = String.◌∷◌ (if is_char c "#" then "_" else c) (replace_hashes s)

abbrev digit : ℕ → Char
digit zero = "0"
digit (suc zero) = "1"
digit (suc (suc zero)) = "2"
digit (suc (suc (suc zero))) = "3"
digit (suc (suc (suc (suc zero)))) = "4"
digit (suc (suc (suc (suc (suc zero))))) = "5"
digit (suc (suc (suc (suc (suc (suc zero)))))) = "6"
digit (suc (suc (suc (suc (suc (suc (suc zero))))))) = "7"
digit (suc (suc (suc (suc (suc (suc (suc (suc zero)))))))) = "8"
digit n = "9"

-- The decimal digits of n before a text, given more fuel than n has digits.
unfoldable pub digits : ℕ → ℕ → String → String
digits zero n s = s
digits (suc fuel) n s =
    let more = digits fuel (n / 10) (String.◌∷◌ (digit (n % 10)) s) in
    if ltb n 10 then String.◌∷◌ (digit n) s else more

-- "Metric%d"
unfoldable pub metric_number : ℕ → String
unfolding digits append
metric_number i = append "Metric" (digits (suc i) i "")

abbrev or_property : Fields → String → Outcome String
or_property metric id =
    if id == "" && has (member metric "MetricProperty")
    then (as_text (member metric "MetricProperty") >>= λ p.
        value (replace_hashes (after_last_slash p)))
    else value id

abbrev or_number : ℕ → String → String
or_number i id = if id == "" then metric_number i else id

-- The id: MetricId, or the last part of MetricProperty where that is empty, or a number.
unfoldable pub metric_id : Fields → ℕ → Outcome String
unfolding member replace_hashes after_last_slash metric_number
metric_id metric i =
    if has (member metric "MetricId")
    then (as_text (member metric "MetricId") >>= or_property metric >>= λ id.
        value (or_number i id))
    else value (or_number i "")

abbrev in_dell : String → Fields → Outcome (String × String × String)
in_dell id dell =
    if has (member dell "ContextID") && has (member dell "Label")
    then (as_text (member dell "ContextID") >>= λ c.
        as_text (member dell "Label") >>= λ l. value (id, c, l))
    else value (id, "", id)

abbrev in_oem : String → Fields → Outcome (String × String × String)
in_oem id oem =
    if has (member oem "Dell")
    then (as_object (member oem "Dell") >>= in_dell id)
    else value (id, "", id)

abbrev with_label : Fields → String → Outcome (String × String × String)
with_label metric id =
    if has (member metric "Oem")
    then (as_object (member metric "Oem") >>= in_oem id)
    else value (id, "", id)

-- `getValueIdContextAndLabel`
unfoldable pub get_value_id_context_and_label : Fields → ℕ → Outcome (String × String × String)
unfolding metric_id
get_value_id_context_and_label metric i = metric_id metric i >>= with_label metric
