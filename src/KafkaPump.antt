-- ===== src/KafkaPump.antt =====
-- cmd/kafkapump/kafkapump.go: what the pump makes of a data group, and where it sends it.
-- `Formats` stands for the parsing of times and of floats; `marshal` is `json.Marshal` of a list of
-- events, none where it gives an error, which the pump drops with an `empty` text in its place.
-- `fails n` is the outcome of the n-th `SendMessage`.
pub mod Topics
use i_drac_telemetry_referen.Common.{
  ℕ, zero, suc, Bool, true, false, Option, none, some, List, [], ◌∷◌, ◌++◌, String, if◌then◌else◌,
}
use i_drac_telemetry_referen.Common.Ascii.{to_lower, has_prefix}
use i_drac_telemetry_referen.Common.Int.{ℤ}
use i_drac_telemetry_referen.Common.Text.{◌==◌, codes, append}
use i_drac_telemetry_referen.Json.{bytes_eq}
use i_drac_telemetry_referen.Databus.Group.{DataValue, EventValue, DataGroup}

pub record Formats : Type 1 where
  pub Float : Type 0
  pub zero_float : Float
  pub one_float : Float
  pub parse_float : String → Option Float
  pub parse_time : String → Option ℤ

-- `strings.ReplaceAll` of "+0000" by "Z"; the first argument counts the characters still to be left
-- out.
unfoldable pub replace_zone : ℕ → String → String
unfolding has_prefix
replace_zone n String.[] = String.[]
replace_zone (suc n) (String.◌∷◌ c s) = replace_zone n s
replace_zone zero (String.◌∷◌ c s) =
    let rest = replace_zone zero s in
    let after = replace_zone 4 s in
    if has_prefix (codes (String.◌∷◌ c s)) (codes "+0000")
    then String.◌∷◌ "Z" after
    else String.◌∷◌ c rest

module _ (formats : Formats) where
  open formats use {Float, zero_float, one_float, parse_float, parse_time}

  pub record KafkaEventFields : Type 0 where
    pub value : Float
    pub metric_name : String
    pub source : String
    pub alert_id : String
    pub member_id : String
    pub severity : String
    pub message_id : String
    pub message : String
    pub origin_of_condition : String

  pub record KafkaEvent : Type 0 where
    pub time : ℤ
    pub event : String
    pub host : String
    pub fields : KafkaEventFields

  abbrev empty_fields : KafkaEventFields
  empty_fields = record {
    value = zero_float;
    metric_name = "";
    source = "";
    alert_id = "";
    member_id = "";
    severity = "";
    message_id = "";
    message = "";
    origin_of_condition = "";
  }

  abbrev or_else : Option ℤ → Option ℤ → Option ℤ
  or_else none t = t
  or_else (some s) t = some s

  -- A time with the zone +0000 is tried again with Z.
  unfoldable pub event_time : String → Option ℤ
  unfolding replace_zone
  event_time timestamp = or_else (parse_time timestamp) (parse_time (replace_zone zero timestamp))

  abbrev or_zero : Option Float → Float
  or_zero none = zero_float
  or_zero (some f) = f

  unfoldable pub float_value : String → Float
  unfolding bytes_eq to_lower
  float_value s =
      if bytes_eq (to_lower (codes s)) (codes "true")
      then one_float
      else if bytes_eq (to_lower (codes s)) (codes "false")
      then zero_float
      else or_zero (parse_float s)

  abbrev metric : DataValue → ℤ → KafkaEvent
  metric v time = record {
    time = time;
    event = "metric";
    host = v.system;
    fields = record empty_fields {
      value = float_value v.value;
      metric_name = append v.context (append "_" v.id);
    };
  }

  abbrev pub alert : DataGroup → EventValue → ℤ → KafkaEvent
  alert group e time = record {
    time = time;
    event = "alert";
    host = group.system;
    fields = record empty_fields {
      alert_id = e.event_id;
      member_id = e.member_id;
      message_id = e.message_id;
      severity = e.message_severity;
      message = e.message;
      origin_of_condition = e.origin_of_condition;
    };
  }

  abbrev pub timed {ℓ} :
      {A : Type ℓ} → (A → ℤ → KafkaEvent) → A → Option ℤ → List KafkaEvent → List KafkaEvent
  timed make x none rest = rest
  timed make x (some t) rest = make x t ∷ rest

  -- The loop over the values of a group
  unfoldable pub metric_events : List DataValue → List KafkaEvent
  unfolding event_time float_value
  metric_events [] = []
  metric_events (v ∷ vs) = timed metric v (event_time v.timestamp) (metric_events vs)

  -- The loop over the events of a group
  unfoldable pub alert_events : DataGroup → List EventValue → List KafkaEvent
  unfolding event_time
  alert_events group [] = []
  alert_events group (e ∷ es) =
      timed (alert group) e (event_time e.event_timestamp) (alert_events group es)

  abbrev pub elements {ℓ} : {A : Type ℓ} → Option (List A) → List A
  elements none = []
  elements (some xs) = xs

  pub record Bus (T : Type 0) : Type 0 where
    pub posted : List (String × T)
    pub sends : ℕ

  -- Whether the loop goes on, or the process exits.
  pub data Outcome (T : Type 0) : Type 0 where
    goes_on : Bus T → Outcome T
    exits : Bus T → Outcome T

  module _ {T : Type 0} (empty : T) (marshal : List KafkaEvent → Option T)
      (fails : ℕ → Option String) where
    abbrev pub or_none : Option T → T
    or_none none = empty
    or_none (some t) = t

    abbrev sent : Bus T → List KafkaEvent → String → Option String → Outcome T
    sent bus events topic none = goes_on (record {
      posted = bus.posted ++ (topic, or_none (marshal events)) ∷ [];
      sends = suc bus.sends;
    })
    sent bus events topic (some e) = exits (record bus { sends = suc bus.sends })

    abbrev send : Bus T → List KafkaEvent → String → Outcome T
    send bus events topic = sent bus events topic (fails bus.sends)

    abbrev send_some : Bus T → List KafkaEvent → String → Outcome T
    send_some bus [] topic = goes_on bus
    send_some bus (e ∷ es) topic = send bus (e ∷ es) topic

    abbrev then_alerts : List KafkaEvent → String → Outcome T → Outcome T
    then_alerts alerts topic (exits bus) = exits bus
    then_alerts alerts topic (goes_on bus) = send_some bus alerts topic

    abbrev send_events : Bus T → String → String → List KafkaEvent → List KafkaEvent → Outcome T
    send_events bus topic alert_topic metrics alerts =
        if alert_topic == ""
        then send bus (metrics ++ alerts) topic
        else then_alerts alerts alert_topic (send_some bus metrics topic)

    -- One group in the loop of `handleGroups`
    unfoldable pub handle_group : Bus T → String → String → DataGroup → Outcome T
    unfolding metric_events alert_events
    handle_group bus topic alert_topic group =
        send_events bus topic alert_topic (metric_events (elements group.values))
          (alert_events group (elements group.events))
