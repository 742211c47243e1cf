-- ===== src/SplunkPump.antt =====
-- cmd/splunkpump/splunkpump.go: what the pump posts for a data group.
-- Times are read as by the Kafka pump. `float_json` is the number that is written for what
-- `ParseFloat` returns beside its error, with none where json.Marshal fails, and `int_json` is the
-- text of an integer.
use i_drac_telemetry_referen.Common.{Option, none, some, List, [], ◌∷◌, String}
use i_drac_telemetry_referen.Common.Int.{ℤ}
use i_drac_telemetry_referen.Common.Text.{append}
use i_drac_telemetry_referen.Json.{Json, null, num, str, obj, end, field}
use i_drac_telemetry_referen.Databus.Group.{DataValue, DataGroup}
use i_drac_telemetry_referen.KafkaPump.{Formats, event_time, elements}

pub record SplunkEventFields : Type 0 where
  pub value : String
  pub metric_name : String
  pub source : String

-- The value of an event is its text as a float.
pub record SplunkEvent : Type 0 where
  pub time : ℤ
  pub event : String
  pub host : String
  pub fields : SplunkEventFields

module _ (formats : Formats) (float_json : String → Option String) (int_json : ℤ → String)
    (index : String) where
  abbrev event_of : DataValue → ℤ → SplunkEvent
  event_of v time = record {
    time = time;
    event = "metric";
    host = v.system;
    fields = record {
      value = v.value;
      metric_name = append v.context (append "_" v.id);
      source = append "http:" index;
    };
  }

  abbrev timed : DataValue → Option ℤ → Option SplunkEvent
  timed v none = none
  timed v (some time) = some (event_of v time)

  -- The loop over the values: the event of one with no time stays nil.
  unfoldable pub events_of : List DataValue → List (Option SplunkEvent)
  unfolding event_time
  events_of [] = []
  events_of (v ∷ vs) = timed v (event_time formats v.timestamp) ∷ events_of vs

  abbrev marshal_with : SplunkEvent → Option String → List Json → List Json
  marshal_with e none rest = rest
  marshal_with e (some number) rest =
      obj (
        field "time" (num (int_json e.time)) (
          field "event" (str e.event) (
            field "host" (str e.host) (
              field "fields"
                (obj (
                  field "_value" (num number) (
                    field "metric_name" (str e.fields.metric_name)
                      (field "source" (str e.fields.source) end))))
                end))))
      ∷ rest

  abbrev marshal_then : Option SplunkEvent → List Json → List Json
  marshal_then none rest = null ∷ rest
  marshal_then (some e) rest = marshal_with e (float_json e.fields.value) rest

  -- The body of the request of `logToSplunk`; an event that cannot be encoded adds nothing to it.
  unfoldable pub body_of : List (Option SplunkEvent) → List Json
  body_of [] = []
  body_of (e ∷ es) = marshal_then e (body_of es)

  -- One group in the loop of `handleGroups`
  unfoldable pub handle_group : DataGroup → List Json
  unfolding events_of body_of
  handle_group group = body_of (events_of (elements formats group.values))
