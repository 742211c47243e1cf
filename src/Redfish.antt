-- ===== src/Redfish.antt =====
-- internal/redfish/payload.go: the values of a redfish service, and their members.
-- A decoded value is a document; a map is the fields of an object, where the last of two equal keys
-- counts. A slice is `none` when it is nil. Indices are not negative. `GetUri` of the client is a
-- parameter.
pub mod Index
pub mod Walk
use i_drac_telemetry_referen.Common.{
  ℕ, zero, suc, Bool, true, false, Option, none, some, List, [], ◌∷◌, String, if◌then◌else◌, leb,
  length,
}
use i_drac_telemetry_referen.Common.Text.{◌==◌}
use i_drac_telemetry_referen.Json.{
  Json, Items, Fields, null, bool, num, str, arr, obj, nil, cons, end, field,
}

pub record RedfishPayload : Type 0 where
  pub object : Fields
  pub array : Option (List Json)
  pub float : String

-- What a call comes to: a value, an error, a panic, or the end of the process by `log.Fatalf`.
pub data Outcome {ℓ} (A : Type ℓ) : Type ℓ where
  value : A → Outcome A
  failed : Outcome A
  panics : Outcome A
  exits : Outcome A

infixl 5 ◌>>=◌
abbrev pub ◌>>=◌ {ℓ κ} : {A : Type ℓ} {B : Type κ} → Outcome A → (A → Outcome B) → Outcome B
value a >>= f = f a
failed >>= f = failed
panics >>= f = panics
exits >>= f = exits

abbrev later {ℓ} : {A : Type ℓ} → Option A → Option A → Option A
later none a = a
later (some b) a = some b

-- value, ok := object[name]
unfoldable pub member : Fields → String → Option Json
member end name = none
member (field k j rest) name = later (member rest name) (if k == name then some j else none)

abbrev absent : Option Json → Bool
absent none = true
absent (some j) = false

-- len(object): the number of different keys
unfoldable pub size : Fields → ℕ
unfolding member
size end = 0
size (field k j rest) = let n = size rest in if absent (member rest k) then suc n else n

unfoldable pub elements : Items → List Json
elements nil = []
elements (cons j rest) = j ∷ elements rest

abbrev pub elements_of : Option (List Json) → List Json
elements_of none = []
elements_of (some xs) = xs

-- `IsCollection` and `IsEventCollection` are true when it has a member of this name.
abbrev pub members_name : String
members_name = "Members"

abbrev pub events_name : String
events_name = "Events"

-- object[name] != nil
abbrev pub has : Option Json → Bool
has none = false
has (some null) = false
has (some j) = true

-- object[name].(string)
abbrev pub as_text : Option Json → Outcome String
as_text (some (str v)) = value v
as_text o = panics

-- object[name].(map[string]interface{})
abbrev pub as_object : Option Json → Outcome Fields
as_object (some (obj fields)) = value fields
as_object o = panics

-- v, _ := object[name].(string)
abbrev pub text_or_empty : Option Json → String
text_or_empty (some (str v)) = v
text_or_empty o = ""

-- `GetArraySize`
abbrev pub get_array_size : RedfishPayload → ℕ
get_array_size r = length (elements_of r.array)

abbrev odata_id : Option Json → Outcome String
odata_id none = value ""
odata_id (some (str uri)) = value uri
odata_id (some _) = panics

abbrev is_one : ℕ → Bool
is_one (suc zero) = true
is_one n = false

-- `getUriFromValue`
unfoldable pub get_uri_from_value : Json → Outcome String
unfolding member size
get_uri_from_value (obj fields) =
    if is_one (size fields) then odata_id (member fields "@odata.id") else value ""
get_uri_from_value _ = value ""

abbrev pub empty_payload : RedfishPayload
empty_payload = record { object = end; array = none; float = "0" }

-- `valueToPayload`
unfoldable pub value_to_payload : Json → Outcome RedfishPayload
unfolding elements
value_to_payload (obj fields) = value (record empty_payload { object = fields })
value_to_payload (arr items) = value (record empty_payload { array = some (elements items) })
value_to_payload (num text) = value (record empty_payload { float = text })
value_to_payload _ = exits

-- A slice at an index
unfoldable pub at_index : List Json → ℕ → Outcome Json
at_index [] i = panics
at_index (x ∷ xs) zero = value x
at_index (x ∷ xs) (suc i) = at_index xs i

module _ (get_uri : String → Outcome RedfishPayload) where
  abbrev followed : Json → Outcome String → Outcome RedfishPayload
  followed j (value uri) = if uri == "" then value_to_payload j else get_uri uri
  followed j failed = failed
  followed j panics = panics
  followed j exits = exits

  -- The payload of a value: what its uri leads to, or the value itself.
  unfoldable pub resolve : Json → Outcome RedfishPayload
  unfolding get_uri_from_value value_to_payload
  resolve j = followed j (get_uri_from_value j)

  abbrev resolve_found : Outcome Json → Outcome RedfishPayload
  resolve_found (value j) = resolve j
  resolve_found failed = failed
  resolve_found panics = panics
  resolve_found exits = exits

  abbrev named : Option Json → Outcome RedfishPayload
  named none = failed
  named (some j) = resolve j

  -- `GetPropertyByName`
  unfoldable pub get_property_by_name : RedfishPayload → String → Outcome RedfishPayload
  unfolding member resolve
  get_property_by_name r name = named (member r.object name)

  -- The type assertion to a slice, and its element.
  abbrev in_collection : Json → ℕ → Outcome RedfishPayload
  in_collection (arr items) i = resolve_found (at_index (elements items) i)
  in_collection _ i = panics

  abbrev in_array : List Json → ℕ → Outcome RedfishPayload
  in_array xs i = if leb i (length xs) then resolve_found (at_index xs i) else failed

  abbrev by_index : RedfishPayload → Option Json → ℕ → Outcome RedfishPayload
  by_index r (some members) i = in_collection members i
  by_index r none i = in_array (elements_of r.array) i

  -- `GetPropertyByIndex`
  unfoldable pub get_property_by_index : RedfishPayload → ℕ → Outcome RedfishPayload
  unfolding member at_index elements resolve
  get_property_by_index r i = by_index r (member r.object members_name) i

  -- `GetEventByIndex`
  unfoldable pub get_event_by_index : RedfishPayload → ℕ → Outcome RedfishPayload
  unfolding member at_index elements resolve
  get_event_by_index r i = by_index r (member r.object events_name) i
