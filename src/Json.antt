-- ===== src/Json.antt =====
-- What the program uses of encoding/json. A document is a tree, with the fields of an object in
-- order; numbers keep their text. How a tree is written as text is a parameter, `JsonText`: the
-- program relies on reading back what it has written.
pub mod Structs
pub mod Results
use i_drac_telemetry_referen.Common.{
  Bool, true, false, ◌≡◌, Option, some, [], ◌∷◌, String, ◌==◌, Bytes, ◌&&◌,
}
use i_drac_telemetry_referen.Common.Ascii.{to_lower}
use i_drac_telemetry_referen.Common.Text.{codes}

mutual
  pub data Json : Type 0 where
    null : Json
    bool : Bool → Json
    num : String → Json
    str : String → Json
    arr : Items → Json
    obj : Fields → Json

  pub data Items : Type 0 where
    nil : Items
    cons : Json → Items → Items

  pub data Fields : Type 0 where
    end : Fields
    field : String → Json → Fields → Fields

unfoldable pub bytes_eq : Bytes → Bytes → Bool
bytes_eq [] [] = true
bytes_eq (x ∷ xs) (y ∷ ys) = x == y && bytes_eq xs ys
bytes_eq _ _ = false

-- A struct's field takes a key whatever its case, over ASCII.
unfoldable pub same_key : String → String → Bool
unfolding bytes_eq
same_key a b = bytes_eq (to_lower (codes a)) (to_lower (codes b))

pub record JsonText : Type 1 where
  pub Text : Type 0
  pub print : Json → Text
  pub parse : Text → Option Json
  pub parse-print : (j : Json) → parse (print j) ≡ some j

-- A type of payloads with its documents, for `json.Marshal` and `json.Unmarshal`.
pub record PayloadType : Type 1 where
  pub Payload : Type 0
  pub marshal : Payload → Option Json
  pub unmarshal : Json → Option Payload
  pub unmarshal-marshal : (p : Payload) (j : Json) → marshal p ≡ some j → unmarshal j ≡ some p
