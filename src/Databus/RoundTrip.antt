-- ===== src/Databus/RoundTrip.antt =====
-- A data group is read back from its document.
use i_drac_telemetry_referen.Common.{◌≡◌, refl, none, some}
use i_drac_telemetry_referen.Common.Ascii.{to_lower, lower}
use i_drac_telemetry_referen.Json.{str}
use i_drac_telemetry_referen.Json.Structs.{set_slice-slice, read_text, read_text-str}
use i_drac_telemetry_referen.Databus.Group.{
  DataValue, EventValue, DataGroup, marshal_value, marshal_event, marshal_group,
}
use i_drac_telemetry_referen.Databus.Reading.{read_value, read_event, read_group}

read_value-marshal_value : (v : DataValue) → read_value (marshal_value v) ≡ some v
unfolding read_value marshal_value to_lower lower
read_value-marshal_value v = refl

read_event-marshal_event : (e : EventValue) → read_event (marshal_event e) ≡ some e
unfolding read_event marshal_event to_lower lower
read_event-marshal_event e = rw (
    set_slice-slice str read_text read_text-str
      (λ xs. record e { origin_of_condition = ""; message_args = xs }) e.message_args)

-- A data group is read back from its document, with its values and its events.
pub read_group-marshal_group : (g : DataGroup) → read_group (marshal_group g) ≡ some g
unfolding read_group marshal_group to_lower lower
read_group-marshal_group g =
    rw
      (set_slice-slice marshal_value read_value read_value-marshal_value
        (λ xs. record g { values = xs; events = none }) g.values)
      (rw (
        set_slice-slice marshal_event read_event read_event-marshal_event
          (λ xs. record g { events = xs }) g.events))
