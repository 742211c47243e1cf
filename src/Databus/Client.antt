-- ===== src/Databus/Client.antt =====
-- internal/databus/databus.go: `GetGroup` of the client, and what it makes of the groups of a service.
use i_drac_telemetry_referen.Common.{ℕ, ◌≡◌, ◌⊎◌, Option, List, String}
use i_drac_telemetry_referen.Json.{JsonText}
use i_drac_telemetry_referen.Wire.{Envelope}
use i_drac_telemetry_referen.Service.Typed.{received, Others, texts, values_in, received-texts}
use i_drac_telemetry_referen.Databus.Group.{DataGroup, marshal_group}
use i_drac_telemetry_referen.Databus.Reading.{empty_group, read_group}
use i_drac_telemetry_referen.Databus.RoundTrip.{read_group-marshal_group}

-- Every group can be sent.
abbrev pub Any : DataGroup → Type 0
Any group = Unit

module _ (json : JsonText) (fails : ℕ → Option String) where
  open json use {Text}

  -- `GetGroup`, over the messages of the queue
  unfoldable pub get_group : List Text → List DataGroup
  unfolding read_group
  get_group messages = received empty_group read_group json fails "datagroup" messages

  -- From a queue on which a service has put groups, among other envelopes that are not of type
  -- datagroup, the client gets exactly the groups, in order and as they were sent.
  pub get_group-texts :
      (ms : List (DataGroup ⊎ Envelope))
      → Others empty_group read_group json fails "datagroup" marshal_group Any ms
      → get_group (texts empty_group read_group json fails "datagroup" marshal_group Any ms)
        ≡ values_in empty_group read_group json fails "datagroup" marshal_group Any ms
  unfolding get_group
  get_group-texts ms h =
      received-texts empty_group read_group json fails "datagroup" marshal_group Any
        (λ g ok. read_group-marshal_group g) ms h
