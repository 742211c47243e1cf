-- ===== src/Config/Answers.antt =====
-- What the client reads of the answers of the service.
use i_drac_telemetry_referen.Common.{
  ◌≡◌, ◌≢◌, refl, sym, ap, ◌∙◌, inl, inr, none, some, String, Bool-cases,
}
use i_drac_telemetry_referen.Common.Ascii.{to_lower, lower}
use i_drac_telemetry_referen.Common.Text.{◌==◌, eq_iff}
use i_drac_telemetry_referen.Json.{Json, Fields, null, bool, num, str, arr, obj, end, field}
use i_drac_telemetry_referen.Config.{
  Command, empty_command, Response, Fault, text_field, value_field, marshal_command,
  marshal_response, set_key, read_fields, read_command,
}
use i_drac_telemetry_referen.Config.Client.{
  empty_response, set_response_key, read_response_fields, read_response,
}

read_value_field :
    (c : Command) (v : Json)
    → c.value ≡ null
    → read_fields c (value_field v end) ≡ record c { value = v }
unfolding read_fields set_key value_field to_lower lower
read_value_field c null e = rw (← e)
read_value_field c (bool b) e = refl
read_value_field c (num n) e = refl
read_value_field c (str s) e = refl
read_value_field c (arr xs) e = refl
read_value_field c (obj fs) e = refl

read_text_field :
    (c : Command) (v : String) (rest : Fields)
    → c.property ≡ ""
    → read_fields c (text_field "property" v rest) ≡ read_fields (record c { property = v }) rest
unfolding read_fields set_key text_field to_lower lower
read_text_field c v rest e = elim (Bool-cases (v == "")) [
  | inl empty ↦
      rw empty
        (ap (λ p. read_fields (record c { property = p }) rest) (e ∙ sym ((eq_iff v "").0 empty)))
  | inr full ↦ rw full
]

-- The service reads the command that the client has sent.
pub read_command-marshal_command : (c : Command) → read_command (some (marshal_command c)) ≡ c
unfolding read_command marshal_command read_fields set_key to_lower lower
read_command-marshal_command c =
    read_text_field
      (record empty_command { command = c.command; response_queue = c.response_queue }) c.property
      (value_field c.value end) refl
    ∙ read_value_field (record c { value = null }) c.value refl

read_response_value :
    (r : Response) (v : Json)
    → r.value ≡ null
    → read_response_fields r (value_field v end) ≡ some (record r { value = v })
unfolding read_response_fields set_response_key value_field to_lower lower
read_response_value r null e = rw (← e)
read_response_value r (bool b) e = refl
read_response_value r (num n) e = refl
read_response_value r (str s) e = refl
read_response_value r (arr xs) e = refl
read_response_value r (obj fs) e = refl

-- Nothing is read from the document of an error.
read_error :
    (r : Response) (doc : Json) → doc ≢ null → read_response_fields r (field "error" doc end) ≡ none
unfolding read_response_fields set_response_key to_lower lower
read_error r null h = absurd (h refl)
read_error r (bool b) h = refl
read_error r (num n) h = refl
read_error r (str s) h = refl
read_error r (arr xs) h = refl
read_error r (obj fs) h = refl

module _ (rest : Fields) (bad : (r : Response) → read_response_fields r rest ≡ none) where
  read_value_bad : (r : Response) (v : Json) → read_response_fields r (value_field v rest) ≡ none
  unfolding read_response_fields set_response_key value_field to_lower lower
  read_value_bad r null = bad r
  read_value_bad r (bool b) = bad (record r { value = bool b })
  read_value_bad r (num n) = bad (record r { value = num n })
  read_value_bad r (str s) = bad (record r { value = str s })
  read_value_bad r (arr xs) = bad (record r { value = arr xs })
  read_value_bad r (obj fs) = bad (record r { value = obj fs })

  read_text_bad :
      (r : Response) (v : String) → read_response_fields r (text_field "property" v rest) ≡ none
  unfolding read_response_fields set_response_key text_field to_lower lower
  read_text_bad r v = elim (Bool-cases (v == "")) [
    | inl empty ↦ rw empty (bad r)
    | inr full ↦ rw full (bad (record r { property = v }))
  ]

-- A response with an error cannot be read, unless the error's document is null: an error that has
-- no encoding of its own is written as an object.
pub read_response_fault :
    (r : Response) (fault : Fault)
    → r.error ≡ some fault
    → fault.document ≢ null
    → read_response (some (marshal_response r)) ≡ none
unfolding read_response marshal_response read_response_fields set_response_key to_lower lower
read_response_fault r fault e h = rw e (
    read_text_bad (value_field r.value (field "error" fault.document end))
      (λ r'.
        read_value_bad (field "error" fault.document end) (λ r''. read_error r'' fault.document h)
          r' r.value)
      (record empty_response { command = r.command }) r.property)

read_response_text :
    (r : Response) (v : String) (rest : Fields)
    → r.property ≡ ""
    → read_response_fields r (text_field "property" v rest)
      ≡ read_response_fields (record r { property = v }) rest
unfolding read_response_fields set_response_key text_field to_lower lower
read_response_text r v rest e = elim (Bool-cases (v == "")) [
  | inl empty ↦ rw empty (
      ap (λ p. read_response_fields (record r { property = p }) rest)
        (e ∙ sym ((eq_iff v "").0 empty)))
  | inr full ↦ rw full
]

abbrev pub success : String → String → Json → Response
success command property value = record {
  command = command;
  property = property;
  value = value;
  error = none;
}

-- A response without an error is read back.
pub read_response-marshal_response :
    (command property : String) (value : Json)
    → read_response (some (marshal_response (success command property value)))
      ≡ some (success command property value)
unfolding read_response marshal_response read_response_fields set_response_key to_lower lower
read_response-marshal_response command property value =
    read_response_text (record empty_response { command = command }) property
      (value_field value end) refl
    ∙ read_response_value (success command property null) value refl
