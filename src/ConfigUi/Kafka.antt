-- ===== src/ConfigUi/Kafka.antt =====
-- cmd/configui/configui.go with cmd/kafkapump/kafkapump.go: the page of the Kafka pump after its form
-- has been sent, where the pump gets every command.
use i_drac_telemetry_referen.Common.{
  Bool, true, false, ◌≡◌, ◌∙◌, refl, sym, ap, Option, none, some, List, [], ◌∷◌, ◌++◌, String, All,
  if◌then◌else◌, inl, inr, Bool-cases, if_same,
}
use i_drac_telemetry_referen.Common.Dict
use i_drac_telemetry_referen.Common.Dict.{Dict, get-put}
use i_drac_telemetry_referen.Common.Text.{◌==◌}
use i_drac_telemetry_referen.Json.{Json, str}
use i_drac_telemetry_referen.Settings.{
  SetOutcome, done, is_property, config_set, config_get, or_empty_text, kafka_properties,
}
use i_drac_telemetry_referen.ConfigUi.{
  Action, set, Block, always, given, uploaded, block_actions, handle_blocks, KfkConfig,
  kafka_blocks, kafka_config, kafka_page, get_kafka_broker_config,
}

text_if :
    (b : Bool) (value : String) (o : Option String)
    → or_empty_text (if b then some value else o) ≡ (if b then value else or_empty_text o)
text_if true value o = refl
text_if false value o = refl

module _ (properties : List String) where
  abbrev settled : Dict String → SetOutcome → Dict String
  settled settings (done settings') = settings'
  settled settings _ = settings

  abbrev apply_action : Dict String → Action → Dict String
  apply_action settings (set _ _ name value) =
      settled settings (config_set properties settings name (str value))
  apply_action settings _ = settings

  -- What the commands make of the settings of a pump
  unfoldable pub apply_actions : Dict String → List Action → Dict String
  unfolding config_set
  apply_actions settings [] = settings
  apply_actions settings (a ∷ rest) = apply_actions (apply_action settings a) rest

  apply_actions-append :
      (settings : Dict String) (xs ys : List Action)
      → apply_actions settings (xs ++ ys) ≡ apply_actions (apply_actions settings xs) ys
  unfolding apply_actions
  apply_actions-append settings [] ys = refl
  apply_actions-append settings (x ∷ xs) ys = apply_actions-append (apply_action settings x) xs ys

  abbrev pub text_at : Dict String → String → String
  text_at settings p = or_empty_text (Dict.get settings p)

  abbrev block_name : Block → String
  block_name (always name value) = name
  block_name (given name value) = name
  block_name (uploaded name content file) = name

  -- The text of a property after a block
  abbrev after_block : Block → String → String → String
  after_block (always name value) p before = if name == p then value else before
  after_block (given name value) p before =
      if name == p then if value == "" then before else value else before
  after_block (uploaded name content file) p before =
      if name == p then if content == "" then before else name else before

  unfoldable after_blocks : List Block → String → String → String
  after_blocks [] p before = before
  after_blocks (b ∷ bs) p before = after_blocks bs p (after_block b p before)

  text_at-set :
      (settings : Dict String) (q r name value p : String)
      → is_property properties name ≡ true
      → text_at (apply_action settings (set q r name value)) p
        ≡ (if name == p then value else text_at settings p)
  unfolding config_set
  text_at-set settings q r name value p known =
      rw (known, get-put settings name p value) (text_if (name == p) value (Dict.get settings p))

  text_at-block :
      (settings : Dict String) (q r : String) (b : Block) (p : String)
      → is_property properties (block_name b) ≡ true
      → text_at (apply_actions settings (block_actions q r b)) p
        ≡ after_block b p (text_at settings p)
  unfolding apply_actions
  text_at-block settings q r (always name value) p known =
      text_at-set settings q r name value p known
  text_at-block settings q r (given name value) p known = elim (Bool-cases (value == "")) [
    | inl e ↦ rw e (sym (if_same (name == p) (text_at settings p)))
    | inr e ↦ rw e (text_at-set settings q r name value p known)
  ]
  text_at-block settings q r (uploaded name content file) p known =
      elim (Bool-cases (content == "")) [
        | inl e ↦ rw e (sym (if_same (name == p) (text_at settings p)))
        | inr e ↦ rw e (text_at-set settings q r name name p known)
      ]

  text_at-handle_blocks :
      (settings : Dict String) (q r : String) (bs : List Block) (p : String)
      → All (λ b. is_property properties (block_name b) ≡ true) bs
      → text_at (apply_actions settings (handle_blocks q r bs)) p
        ≡ after_blocks bs p (text_at settings p)
  unfolding handle_blocks after_blocks apply_actions
  text_at-handle_blocks settings q r [] p known = refl
  text_at-handle_blocks settings q r (b ∷ bs) p known =
      ap (λ s. text_at s p)
        (apply_actions-append settings (block_actions q r b) (handle_blocks q r bs))
      ∙ text_at-handle_blocks (apply_actions settings (block_actions q r b)) q r bs p known.1
      ∙ ap (after_blocks bs p) (text_at-block settings q r b p known.0)

-- What the pump answers to a request for a property
abbrev pub pump_answer : Dict String → String → Option Json
pump_answer settings p = answer_of (config_get kafka_properties settings p)
  where
    answer_of : Option String → Option Json
    answer_of none = none
    answer_of (some v) = some (str v)

abbrev pub or_keep : String → String → String
or_keep value before = if value == "" then before else value

abbrev pub stored_if : String → String → String → String
stored_if name content before = if content == "" then before else name

abbrev pub at : Dict String → String → String
at = text_at kafka_properties

kafka_page_of :
    (settings : Dict String)
    → get_kafka_broker_config (pump_answer settings)
      ≡ some (
          kafka_page
            (at settings "kafkaBroker")
            (at settings "kafkaTopic")
            (at settings "kafkaAlertTopic")
            (at settings "kafkaSkipVerify")
            (at settings "kafkaCACert")
            (at settings "kafkaClientCert"))
unfolding get_kafka_broker_config config_get
kafka_page_of settings = refl

-- When the form of the Kafka pump has been bound and the pump has taken its commands, the page shows
-- the broker, the topic and the verification of the form, or those before where the form leaves them
-- empty, and the alert topic of the form, also where it is empty. It shows TLS and the client's
-- certificate where they were uploaded now or were set before.
pub get_kafka_broker_config-kafka_config :
    (settings : Dict String) (form : KfkConfig)
    → get_kafka_broker_config
        (pump_answer (apply_actions kafka_properties settings (kafka_config form false)))
      ≡ some (
          kafka_page
            (or_keep form.broker (at settings "kafkaBroker"))
            (or_keep form.topic (at settings "kafkaTopic"))
            form.alert_topic
            (or_keep form.kafka_skip_verify (at settings "kafkaSkipVerify"))
            (stored_if "kafkaCACert" form.kafka_ca_cert (at settings "kafkaCACert"))
            (stored_if "kafkaClientCert" form.kafka_client_cert (at settings "kafkaClientCert")))
unfolding kafka_config after_blocks is_property
get_kafka_broker_config-kafka_config settings form =
    let settled_at : (p : String)
        → at (apply_actions kafka_properties settings (kafka_config form false)) p
          ≡ after_blocks kafka_properties (kafka_blocks form) p (at settings p) =
      λ p.
        text_at-handle_blocks kafka_properties settings "/kafkapump/config" "/kconfigui"
          (kafka_blocks form) p (refl, (refl, (refl, (refl, (refl, (refl, (refl, tt))))))) in
    kafka_page_of (apply_actions kafka_properties settings (kafka_config form false))
    ∙ rw
        (
          settled_at "kafkaBroker",
          settled_at "kafkaTopic",
          settled_at "kafkaAlertTopic",
          settled_at "kafkaSkipVerify",
          settled_at "kafkaCACert",
          settled_at "kafkaClientCert",
        )
        refl
