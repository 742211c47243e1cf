-- ===== src/KafkaPump/Topics.antt =====
-- The events that a group sends, with and without a topic for alerts.
use i_drac_telemetry_referen.Common.{
  ℕ, Bool, true, ◌≡◌, Option, none, List, [], ◌∷◌, ◌++◌, String, All, if◌then◌else◌,
}
use i_drac_telemetry_referen.Common.Text.{◌==◌}
use i_drac_telemetry_referen.Json.Results.{Gives}
use i_drac_telemetry_referen.KafkaPump.{Formats, KafkaEvent, Bus, Outcome, goes_on}

-- Events under their topic
abbrev pub on_topic {ℓ} : {A : Type ℓ} → String → List A → List (String × A)
on_topic topic [] = []
on_topic topic (e ∷ es) = (topic, e) ∷ on_topic topic es

module _ (formats : Formats) {T : Type 0} (empty : T)
    (marshal : List (KafkaEvent formats) → Option T) (fails : ℕ → Option String) where
  abbrev Tagged : Type 0
  Tagged = List (String × KafkaEvent formats)

  -- The events of the messages, each with the topic of its message, in order
  abbrev pub events_in : (T → List (KafkaEvent formats)) → List (String × T) → Tagged
  events_in read [] = []
  events_in read ((topic, m) ∷ ms) = on_topic topic (read m) ++ events_in read ms

  -- The topic of the alerts
  abbrev pub alerts_go : String → String → String
  alerts_go topic alert_topic = if alert_topic == "" then topic else alert_topic

  -- An event whose value `json.Marshal` can write
  abbrev pub IsFinite : (formats.Float → Bool) → KafkaEvent formats → Type 0
  IsFinite finite e = finite e.fields.value ≡ true

  module _ (read : T → List (KafkaEvent formats)) (finite : formats.Float → Bool)
      (reads : (es : List (KafkaEvent formats))
        → All (IsFinite finite) es
        → Gives (marshal es) (λ t. read t ≡ es))
      (takes : (n : ℕ) → fails n ≡ none) where
    -- The loop goes on, and the messages of the bus hold the events under their topics.
    pub record Holds (o : Outcome formats T) (es : Tagged) : Type 0 where
      after : Bus formats T
      goes : o ≡ goes_on after
      events : events_in read after.posted ≡ es
