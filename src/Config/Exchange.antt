-- ===== src/Config/Exchange.antt =====
-- A command of the client, the answer of the service, and what the client reads.
use i_drac_telemetry_referen.Common.{
  ℕ, ◌≡◌, refl, ap, ◌∙◌, ◌⊎◌, inl, inr, Option, none, some, String,
}
use i_drac_telemetry_referen.Common.Dict
use i_drac_telemetry_referen.Common.Dict.{Dict}
use i_drac_telemetry_referen.Json.{Json, JsonText, null}
use i_drac_telemetry_referen.Service.{Bus, send_message}
use i_drac_telemetry_referen.Config.{
  Command, Response, Fault, marshal_command, marshal_response, ConfigEntry, answer, unknown, handle,
  get, set, reset, run, respond, marshalled, switch, set_in, get_in, reset_in,
}
use i_drac_telemetry_referen.Config.Client.{get_command, set_command, read_response}
use i_drac_telemetry_referen.Config.Answers.{
  read_command-marshal_command, read_response_fault, read_response-marshal_response, success,
}

module _ {ℓ} {S : Type ℓ} (entries : Dict (ConfigEntry S)) (json : JsonText)
    (fails : ℕ → Option String) where
  open json use {Text, print, parse, parse-print}

  run_lem :
      (s : S) (bus : Bus Text) (c : Command)
      → run entries json fails s bus (print (marshal_command c))
        ≡ respond entries json fails bus c.response_queue (handle entries s c)
  unfolding run
  run_lem s bus c = rw (parse-print (marshal_command c), read_command-marshal_command c)

  -- The document goes to the queue, and the state is the given one.
  abbrev pub Answered : S → Bus Text → Command → S → Json → Type ℓ
  Answered s bus c s' doc =
      run entries json fails s bus (print (marshal_command c))
      ≡ (s', (send_message json fails bus (print doc) c.response_queue).0)

  module _ (s : S) (bus : Bus Text) (queue name : String) (entry : ConfigEntry S)
      (there : Dict.get entries name ≡ some entry) where
    handle_set :
        (v : Json)
        → (entry.set s name v).1 ≡ none
        → handle entries s (set_command queue name v)
          ≡ ((entry.set s name v).0, some (marshal_response (success "set" "" v)))
    unfolding handle set
    handle_set v ok =
        ap (λ o. marshalled entries (set_in entries s (set_command queue name v) o)) there
        ∙ ap
            (λ e. (
              (entry.set s name v).0,
              some (marshal_response (answer entries (set_command queue name v) v e)),
            ))
            ok

    -- A value that the entry takes: the service has the entry's new state, and sends one response to
    -- the queue of the client, who reads the value in it.
    pub set_exchange :
        (v : Json)
        → (entry.set s name v).1 ≡ none
        → Answered s bus
            (set_command queue name v)
            (entry.set s name v).0
            (marshal_response (success "set" "" v))
          × (read_response (parse (print (marshal_response (success "set" "" v))))
              ≡ some (success "set" "" v))
    set_exchange v ok = (
      run_lem s bus (set_command queue name v)
          ∙ ap (respond entries json fails bus queue) (handle_set v ok),
      ap read_response (parse-print _) ∙ read_response-marshal_response "set" "" v,
    )

    handle_get :
        (s' : S) (v : Json)
        → entry.get s' name ≡ (v, none)
        → handle entries s' (get_command queue name)
          ≡ (s', some (marshal_response (success "get" "" v)))
    unfolding handle get
    handle_get s' v reads =
        ap (λ o. (s', some (marshal_response (get_in entries s' (get_command queue name) o)))) there
        ∙ ap
            (λ (r : Json × Option Fault).
              (s', some (marshal_response (answer entries (get_command queue name) r.0 r.1))))
            reads

    -- Where the entry gives back the value that it has taken: after a set, a get leaves the state as
    -- it is, and the client reads the value that was set.
    pub get_after_set :
        (bus' : Bus Text) (v : Json)
        → (entry.set s name v).1 ≡ none
        → entry.get (entry.set s name v).0 name ≡ (v, none)
        → Answered s bus
            (set_command queue name v)
            (entry.set s name v).0
            (marshal_response (success "set" "" v))
          × (Answered
              (entry.set s name v).0
              bus'
              (get_command queue name)
              (entry.set s name v).0
              (marshal_response (success "get" "" v)))
          × (read_response (parse (print (marshal_response (success "get" "" v))))
              ≡ some (success "get" "" v))
    get_after_set bus' v ok reads = (
      (set_exchange v ok).0,
      run_lem (entry.set s name v).0 bus' (get_command queue name)
          ∙ ap (respond entries json fails bus' queue) (handle_get (entry.set s name v).0 v reads),
      ap read_response (parse-print _) ∙ read_response-marshal_response "get" "" v,
    )

  -- The response to a command whose property no entry has.
  abbrev pub refused : Command → Response
  refused c = answer entries c null (some (unknown entries c))

  handle_missing :
      (s : S) (c : Command)
      → Dict.get entries c.property ≡ none
      → (c.command ≡ "get") ⊎ ((c.command ≡ "set") ⊎ (c.command ≡ "reset"))
      → handle entries s c ≡ (s, some (marshal_response (refused c)))
  unfolding handle get set reset
  handle_missing s c missing (inl e) =
      ap (λ k. switch entries k s c) e
      ∙ ap (λ o. (s, some (marshal_response (get_in entries s c o)))) missing
  handle_missing s c missing (inr (inl e)) =
      ap (λ k. switch entries k s c) e ∙ ap (λ o. marshalled entries (set_in entries s c o)) missing
  handle_missing s c missing (inr (inr e)) =
      ap (λ k. switch entries k s c) e
      ∙ ap (λ o. marshalled entries (reset_in entries s c o)) missing

  -- A get, set or reset of a property that no entry has leaves the state as it is and is answered,
  -- with a response that the client cannot read.
  pub missing_exchange :
      (s : S) (bus : Bus Text) (c : Command)
      → Dict.get entries c.property ≡ none
      → (c.command ≡ "get") ⊎ ((c.command ≡ "set") ⊎ (c.command ≡ "reset"))
      → Answered s bus c s (marshal_response (refused c))
        × (read_response (parse (print (marshal_response (refused c)))) ≡ none)
  missing_exchange s bus c missing asks = (
    run_lem s bus c
        ∙ ap (respond entries json fails bus c.response_queue) (handle_missing s c missing asks),
    ap read_response (parse-print _)
        ∙ read_response_fault (refused c) (unknown entries c) refl (λ e. cc),
  )
