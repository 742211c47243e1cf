-- ===== src/Databus/Reading.antt =====
-- internal/databus/databus.go: the data groups that the client reads. A document that names a field
-- twice is not considered.
use i_drac_telemetry_referen.Common.{Option, none, some, String, if◌then◌else◌}
use i_drac_telemetry_referen.Json.Structs.{
  set_text, set_slice, read_text, read_struct, read_fields, read_items,
}
use i_drac_telemetry_referen.Json.{Json, same_key}
use i_drac_telemetry_referen.Databus.Group.{DataValue, EventValue, DataGroup}

abbrev empty_value : DataValue
empty_value = record {
  id = "";
  context = "";
  label = "";
  value = "";
  system = "";
  host_name = "";
  timestamp = "";
}

unfoldable pub set_value : DataValue → String → Json → Option DataValue
unfolding same_key
set_value v key j =
    if same_key key "ID"
    then set_text v (λ s. record v { id = s }) j
    else if same_key key "Context"
    then set_text v (λ s. record v { context = s }) j
    else if same_key key "Label"
    then set_text v (λ s. record v { label = s }) j
    else if same_key key "Value"
    then set_text v (λ s. record v { value = s }) j
    else if same_key key "System"
    then set_text v (λ s. record v { system = s }) j
    else if same_key key "HostName"
    then set_text v (λ s. record v { host_name = s }) j
    else if same_key key "Timestamp"
    then set_text v (λ s. record v { timestamp = s }) j
    else some v

unfoldable pub read_value : Json → Option DataValue
unfolding set_value read_fields
read_value j = read_struct set_value empty_value j

abbrev pub empty_event : EventValue
empty_event = record {
  event_type = "";
  event_id = "";
  event_timestamp = "";
  member_id = "";
  message_severity = "";
  message = "";
  message_id = "";
  message_args = none;
  origin_of_condition = "";
}

unfoldable pub set_event : EventValue → String → Json → Option EventValue
unfolding same_key read_items
set_event e key j =
    if same_key key "EventType"
    then set_text e (λ s. record e { event_type = s }) j
    else if same_key key "EventId"
    then set_text e (λ s. record e { event_id = s }) j
    else if same_key key "EventTimestamp"
    then set_text e (λ s. record e { event_timestamp = s }) j
    else if same_key key "MemberId"
    then set_text e (λ s. record e { member_id = s }) j
    else if same_key key "MessageSeverity"
    then set_text e (λ s. record e { message_severity = s }) j
    else if same_key key "Message"
    then set_text e (λ s. record e { message = s }) j
    else if same_key key "MessageId"
    then set_text e (λ s. record e { message_id = s }) j
    else if same_key key "MessageArgs"
    then set_slice read_text (λ xs. record e { message_args = xs }) j
    else if same_key key "OriginOfCondition"
    then set_text e (λ s. record e { origin_of_condition = s }) j
    else some e

unfoldable pub read_event : Json → Option EventValue
unfolding set_event read_fields
read_event j = read_struct set_event empty_event j

abbrev pub empty_group : DataGroup
empty_group = record {
  host_id = "";
  id = "";
  label = "";
  sequence = "";
  system = "";
  host_name = "";
  model = "";
  sku = "";
  fqdn = "";
  fw_ver = "";
  img_id = "";
  timestamp = "";
  values = none;
  events = none;
}

unfoldable pub set_group : DataGroup → String → Json → Option DataGroup
unfolding same_key read_items read_value read_event
set_group g key j =
    if same_key key "HostID"
    then set_text g (λ s. record g { host_id = s }) j
    else if same_key key "ID"
    then set_text g (λ s. record g { id = s }) j
    else if same_key key "Label"
    then set_text g (λ s. record g { label = s }) j
    else if same_key key "Sequence"
    then set_text g (λ s. record g { sequence = s }) j
    else if same_key key "System"
    then set_text g (λ s. record g { system = s }) j
    else if same_key key "HostName"
    then set_text g (λ s. record g { host_name = s }) j
    else if same_key key "Model"
    then set_text g (λ s. record g { model = s }) j
    else if same_key key "SKU"
    then set_text g (λ s. record g { sku = s }) j
    else if same_key key "FQDN"
    then set_text g (λ s. record g { fqdn = s }) j
    else if same_key key "FwVer"
    then set_text g (λ s. record g { fw_ver = s }) j
    else if same_key key "ImgID"
    then set_text g (λ s. record g { img_id = s }) j
    else if same_key key "Timestamp"
    then set_text g (λ s. record g { timestamp = s }) j
    else if same_key key "Values"
    then set_slice read_value (λ xs. record g { values = xs }) j
    else if same_key key "Events"
    then set_slice read_event (λ xs. record g { events = xs }) j
    else some g

-- `DecodePayload` into a data group
unfoldable pub read_group : Json → Option DataGroup
unfolding set_group read_fields
read_group j = read_struct set_group empty_group j
