-- ===== src/RedfishRead/Devices/Starts.antt =====
-- cmd/redfishread/redfishread.go: the monitors that are started and the devices that are removed, as
-- services and commands come in. A panic or the end of the program ends the marks.
use i_drac_telemetry_referen.Common.{
  ℕ, Bool, true, false, ◌≡◌, refl, ap, ◌∙◌, ◌||◌, ◌⊎◌, inl, inr, Option, none, some, List, [], ◌∷◌,
  String, Bool-cases, if◌then◌else◌,
}
use i_drac_telemetry_referen.Common.Dict
use i_drac_telemetry_referen.Common.Dict.{Dict, get-put, get-put_same, get-remove}
use i_drac_telemetry_referen.Common.Int.{ℤ}
use i_drac_telemetry_referen.Common.Text.{◌==◌, eq_iff}
use i_drac_telemetry_referen.Json.{JsonText}
use i_drac_telemetry_referen.Wire.{Envelope}
use i_drac_telemetry_referen.Redfish.{Outcome, value, failed, panics, exits, ◌>>=◌}
use i_drac_telemetry_referen.Service.Typed.{decode_payload}
use i_drac_telemetry_referen.Auth.{IntText, Service, empty_service, read_service}
use i_drac_telemetry_referen.RedfishRead.{RedfishDevice}
use i_drac_telemetry_referen.RedfishRead.Main.{
  World, DataProducer, producers_of, reply_producers, cancel, delete_producer, handle_command,
  handle_auth_service,
}
use i_drac_telemetry_referen.RedfishRead.Devices.{handled, opened, startable, handled-cases}

pub data Mark : Type 0 where
  started : String → Mark
  removed : String → Mark

pub data Arrival : Type 0 where
  service : Service → Arrival
  command : Envelope → Arrival

-- Whether the monitor of an address is started before its device is removed
abbrev pub again : String → List Mark → Bool
again ip [] = false
again ip (started q ∷ ms) = q == ip || again ip ms
again ip (removed q ∷ ms) = if q == ip then false else again ip ms

abbrev pub AreApart : List Mark → Type 0
AreApart [] = Unit
AreApart (started ip ∷ ms) = (again ip ms ≡ false) × AreApart ms
AreApart (removed ip ∷ ms) = AreApart ms

module _ (json : JsonText) (fails : ℕ → Option String) (ints : IntText)
    (init : String → String → String → ℤ → Option String)
    (init_bearer : String → String → Option String) where
  open json use {Text}

  abbrev started_if : Option RedfishDevice → String → List Mark → List Mark
  started_if none ip ms = ms
  started_if (some device) ip ms = started ip ∷ ms

  abbrev removed_by : Option Service → List Mark → List Mark
  removed_by none ms = ms
  removed_by (some s) ms = removed s.ip ∷ ms

  abbrev decoded : Envelope → Option Service
  decoded env = decode_payload empty_service (read_service ints) env.payload

  abbrev removal : Envelope → List Mark → List Mark
  removal env ms = if env.type == "deleteproducers" then removed_by (decoded env) ms else ms

  abbrev marks_after : Outcome (World Text) → (World Text → List Mark) → List Mark
  marks_after (value w) rest = rest w
  marks_after o rest = []

  -- What the program does to its devices, as services and commands come in
  unfoldable pub marks : World Text → List Arrival → List Mark
  unfolding handle_auth_service handle_command
  marks w [] = []
  marks w (service s ∷ rest) =
      let (devices, device) = handle_auth_service json fails ints init init_bearer w.devices s in
      started_if device s.ip (marks (record w { devices = devices }) rest)
  marks w (command env ∷ rest) =
      marks_after (handle_command json fails ints w env) (λ w'. removal env (marks w' rest))

  marks-service :
      (w : World Text) (s : Service) (rest : List Arrival)
      (r : Dict RedfishDevice × Option RedfishDevice)
      → handled json fails ints init init_bearer w.devices s ≡ r
      → marks w (service s ∷ rest) ≡ started_if r.1 s.ip (marks (record w { devices = r.0 }) rest)
  unfolding marks
  marks-service w s rest r e =
      ap (λ r. started_if r.1 s.ip (marks (record w { devices = r.0 }) rest)) e

  again-started_if :
      (device : Option RedfishDevice) (q : String) (ms : List Mark) (ip : String)
      → q == ip ≡ false
      → again ip ms ≡ false
      → again ip (started_if device q ms) ≡ false
  again-started_if none q ms ip other e = e
  again-started_if (some device) q ms ip other e = rw (other, e)

  again-removed :
      (b : Bool) (o : Option Service) (ms : List Mark) (ip : String)
      → again ip ms ≡ false
      → again ip (if b then removed_by o ms else ms) ≡ false
  again-removed false o ms ip e = e
  again-removed true none ms ip e = e
  again-removed true (some s) ms ip e = either (s.ip == ip)
    where
      either : (b : Bool) → (if b then false else again ip ms) ≡ false
      either true = refl
      either false = e

  AreApart-removed :
      (b : Bool) (o : Option Service) (ms : List Mark)
      → AreApart ms
      → AreApart (if b then removed_by o ms else ms)
  AreApart-removed false o ms h = h
  AreApart-removed true none ms h = h
  AreApart-removed true (some s) ms h = h

  -- A device is there after a command, or has been removed.
  abbrev Stays : Envelope → String → RedfishDevice → Outcome (World Text) → Type 0
  Stays env ip d (value w) =
      (Dict.get w.devices ip ≡ some d) ⊎ ((ms : List Mark) → again ip (removal env ms) ≡ false)
  Stays env ip d o = Unit

  Stays-if :
      (env : Envelope) (ip : String) (d : RedfishDevice) (b : Bool) (x y : Outcome (World Text))
      → Stays env ip d x
      → Stays env ip d y
      → Stays env ip d (if b then x else y)
  Stays-if env ip d true x y hx hy = hx
  Stays-if env ip d false x y hx hy = hy

  Stays-producers :
      (env : Envelope) (ip : String) (d : RedfishDevice) (w : World Text)
      (o : Outcome (List DataProducer))
      → Dict.get w.devices ip ≡ some d
      → Stays env ip d (o >>= λ producers. value (reply_producers json fails ints w env producers))
  Stays-producers env ip d w (value producers) h = inl h
  Stays-producers env ip d w failed h = tt
  Stays-producers env ip d w panics h = tt
  Stays-producers env ip d w exits h = tt

  Stays-cancel :
      (env : Envelope) (ip : String) (d : RedfishDevice) (w : World Text) (s : Service)
      (o : Option RedfishDevice)
      → env.type == "deleteproducers" ≡ true
      → decoded env ≡ some s
      → Dict.get w.devices ip ≡ some d
      → Stays env ip d (cancel json fails ints w s.ip o)
  Stays-cancel env ip d w s none e e' h = tt
  Stays-cancel env ip d w s (some device) e e' h = elim (Bool-cases (s.ip == ip)) [
    | inl same ↦ inr (λ ms. rw (e, e', same) refl)
    | inr other ↦ inl (get-remove w.devices s.ip ip ∙ rw other h)
  ]

  Stays-delete :
      (env : Envelope) (ip : String) (d : RedfishDevice) (w : World Text) (o : Option Service)
      → env.type == "deleteproducers" ≡ true
      → decoded env ≡ o
      → Dict.get w.devices ip ≡ some d
      → Stays env ip d (delete_producer json fails ints w o)
  Stays-delete env ip d w none e e' h = inl h
  Stays-delete env ip d w (some s) e e' h =
      Stays-cancel env ip d w s (Dict.get w.devices s.ip) e e' h

  handle_command-Stays :
      (w : World Text) (env : Envelope) (ip : String) (d : RedfishDevice)
      → Dict.get w.devices ip ≡ some d
      → Stays env ip d (handle_command json fails ints w env)
  unfolding handle_command
  handle_command-Stays w env ip d h = Stays-if env ip d (env.type == "get") _ _ (inl h) (
      Stays-if env ip d (env.type == "getproducers") _ _
        (Stays-producers env ip d w (producers_of w.devices) h)
        (by_test (env.type == "deleteproducers") refl))
    where
      last : Outcome (World Text)
      last = if env.type == "terminate" then exits else value w

      by_test :
          (b : Bool)
          → env.type == "deleteproducers" ≡ b
          → Stays env ip d (if b then delete_producer json fails ints w (decoded env) else last)
      by_test true e = Stays-delete env ip d w (decoded env) e refl h
      by_test false e = Stays-if env ip d (env.type == "terminate") exits (value w) tt (inl h)

  again-after :
      (env : Envelope) (ip : String) (d : RedfishDevice) (o : Outcome (World Text))
      (rest : World Text → List Mark)
      → Stays env ip d o
      → ((w : World Text) → Dict.get w.devices ip ≡ some d → again ip (rest w) ≡ false)
      → again ip (marks_after o (λ w. removal env (rest w))) ≡ false
  again-after env ip d (value w) rest (inl h) ih =
      again-removed (env.type == "deleteproducers") (decoded env) (rest w) ip (ih w h)
  again-after env ip d (value w) rest (inr f) ih = f (rest w)
  again-after env ip d failed rest h ih = refl
  again-after env ip d panics rest h ih = refl
  again-after env ip d exits rest h ih = refl

  AreApart-after :
      (env : Envelope) (o : Outcome (World Text)) (rest : World Text → List Mark)
      → ((w : World Text) → AreApart (rest w))
      → AreApart (marks_after o (λ w. removal env (rest w)))
  AreApart-after env (value w) rest ih =
      AreApart-removed (env.type == "deleteproducers") (decoded env) (rest w) (ih w)
  AreApart-after env failed rest ih = tt
  AreApart-after env panics rest ih = tt
  AreApart-after env exits rest ih = tt

  other_ip :
      (devices : Dict RedfishDevice) (ip q : String) (d : RedfishDevice)
      → Dict.get devices ip ≡ some d
      → Dict.get devices q ≡ none
      → q == ip ≡ false
  other_ip devices ip q d e new = elim (Bool-cases (q == ip)) [
    | inr other ↦ other
    | inl same ↦ cc (e, new, (eq_iff q ip).0 same)
  ]

  -- A device that is there is not started again before it is removed.
  marks-known :
      (w : World Text) (arrivals : List Arrival) (ip : String) (d : RedfishDevice)
      → Dict.get w.devices ip ≡ some d
      → again ip (marks w arrivals) ≡ false
  unfolding marks
  marks-known w [] ip d h = refl
  marks-known w (command env ∷ rest) ip d h =
      again-after env ip d (handle_command json fails ints w env) (λ w'. marks w' rest)
        (handle_command-Stays w env ip d h) (λ w' h'. marks-known w' rest ip d h')
  marks-known w (service s ∷ rest) ip d h =
      elim (handled-cases json fails ints init init_bearer w.devices s) [
        | inl e ↦ rw (marks-service w s rest _ e) (marks-known w rest ip d h)
        | inr (new, e) ↦ rw (marks-service w s rest _ e) (
            let put = Dict.put w.devices s.ip (opened json fails ints init init_bearer s) in
            let other = other_ip w.devices ip s.ip d h new in
            again-started_if (startable json fails ints init init_bearer s) s.ip
              (marks (record w { devices = put }) rest) ip other
              (marks-known (record w { devices = put }) rest ip d
                (get-put w.devices s.ip ip _ ∙ rw other h)))
      ]

  AreApart-started_if :
      (device : Option RedfishDevice) (ip : String) (ms : List Mark)
      → again ip ms ≡ false
      → AreApart ms
      → AreApart (started_if device ip ms)
  AreApart-started_if none ip ms e h = h
  AreApart-started_if (some device) ip ms e h = (e, h)

  -- Whatever services and commands come in, in any order: the monitor of an address is not started
  -- twice, unless its device has been removed by DELETEPRODUCER in between.
  pub marks-AreApart : (w : World Text) (arrivals : List Arrival) → AreApart (marks w arrivals)
  unfolding marks
  marks-AreApart w [] = tt
  marks-AreApart w (command env ∷ rest) =
      AreApart-after env (handle_command json fails ints w env) (λ w'. marks w' rest)
        (λ w'. marks-AreApart w' rest)
  marks-AreApart w (service s ∷ rest) =
      elim (handled-cases json fails ints init init_bearer w.devices s) [
        | inl e ↦ rw (marks-service w s rest _ e) (marks-AreApart w rest)
        | inr (new, e) ↦ rw (marks-service w s rest _ e) (
            let device = opened json fails ints init init_bearer s in
            let put = Dict.put w.devices s.ip device in
            AreApart-started_if (startable json fails ints init init_bearer s) s.ip
              (marks (record w { devices = put }) rest)
              (marks-known (record w { devices = put }) rest s.ip device
                (get-put_same w.devices s.ip device))
              (marks-AreApart (record w { devices = put }) rest))
      ]
