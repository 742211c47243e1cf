-- ===== src/Disc/Chain.antt =====
-- From the discovery of services to the client that reads them with their secrets.
use i_drac_telemetry_referen.Common.{
  ℕ, ◌≡◌, ◌⊎◌, inl, Option, none, some, List, [], ◌∷◌, ◌++◌, String,
}
use i_drac_telemetry_referen.Common.Dict
use i_drac_telemetry_referen.Common.Dict.{Dict}
use i_drac_telemetry_referen.Json.{JsonText}
use i_drac_telemetry_referen.Wire.{Envelope}
use i_drac_telemetry_referen.Service.Typed.{texts, Others}
use i_drac_telemetry_referen.Auth
use i_drac_telemetry_referen.Auth.{IntText}
use mathlib.Core.List.{Permᴰ}
use mathlib.Core.List
use i_drac_telemetry_referen.Auth.Client
use i_drac_telemetry_referen.Auth.Replies.{IsPlain}
use i_drac_telemetry_referen.Disc.{Service, marshal_service, read_service}
use i_drac_telemetry_referen.Disc.Programs.{DiscProgram, auth_service_of}

-- Messages on a queue
abbrev pub on_queue {ℓ} : {T : Type ℓ} → String → List T → List (String × T)
on_queue queue [] = []
on_queue queue (m ∷ ms) = (queue, m) ∷ on_queue queue ms

module _ (json : JsonText) (fails : ℕ → Option String) (ints : IntText)
    (takes : (n : ℕ) → fails n ≡ none) where
  open json use {Text, print, parse, parse-print}
  open ints use {read-print}

  abbrev pub disc_texts : List Service → List Text
  disc_texts [] = []
  disc_texts (s ∷ ss) = print (marshal_service json fails ints s) ∷ disc_texts ss

  -- The services that goroutines have sent, in the order in which they have
  abbrev pub IsSent : DiscProgram json fails ints → DiscProgram json fails ints → Type 0
  IsSent p q =
      (ss : List Service) × Permᴰ p.pending (ss ++ q.pending)
      × (q.bus.posted ≡ p.bus.posted ++ on_queue "/discovery" (disc_texts ss))

  module _ (section : String → Option (Dict String))
      (token : Service → Dict String → Option String) where
    abbrev and_more : Option Auth.Service → List Auth.Service → List Auth.Service
    and_more none ss = ss
    and_more (some s) ss = s ∷ ss

    -- The services that have a section, with their secrets
    abbrev pub with_secrets : List Service → List Auth.Service
    with_secrets [] = []
    with_secrets (s ∷ ss) =
        and_more (auth_service_of json fails ints section token s) (with_secrets ss)

    abbrev broadcasts : List Auth.Service → List (Auth.Service ⊎ Envelope)
    broadcasts [] = []
    broadcasts (s ∷ ss) = inl s ∷ broadcasts ss

    -- Their broadcasts
    abbrev pub auth_texts : List Auth.Service → List Text
    auth_texts ss =
        texts Auth.empty_service (Auth.read_service ints) json fails "service"
          (Auth.marshal_service ints) IsPlain (broadcasts ss)

    PlainIf : Option Auth.Service → Type 0
    PlainIf none = Unit
    PlainIf (some a) = IsPlain a

    abbrev AllOthers : List Auth.Service → Type 0
    AllOthers ss =
        Others Auth.empty_service (Auth.read_service ints) json fails "service"
          (Auth.marshal_service ints) IsPlain (broadcasts ss)
