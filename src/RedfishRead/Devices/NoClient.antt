-- ===== src/RedfishRead/Devices/NoClient.antt =====
-- What a service whose client is nil does to the program.
use mathlib.Core.Option.{some-injective}
use i_drac_telemetry_referen.Common.{
  ℕ, Bool, true, false, ◌≡◌, refl, sym, ap, ◌∙◌, inl, inr, Option, none, some, [], ◌∷◌, String,
  Bool-cases,
}
use i_drac_telemetry_referen.Common.Dict
use i_drac_telemetry_referen.Common.Dict.{Dict, get-put_same}
use i_drac_telemetry_referen.Common.Int.{ℤ}
use i_drac_telemetry_referen.Common.Text.{◌==◌, eq_iff}
use i_drac_telemetry_referen.Json.{JsonText}
use i_drac_telemetry_referen.Wire.{Envelope}
use i_drac_telemetry_referen.Redfish.{Outcome, value, panics, ◌>>=◌}
use i_drac_telemetry_referen.Auth.{
  IntText, Service, auth_type_username_password, auth_type_bearer_token,
}
use i_drac_telemetry_referen.RedfishRead.{
  Client, no_client, nil_client, client, RedfishDevice, Started, Numbers, Answers,
  redfish_monitor_start, eq_int, secret,
}
use i_drac_telemetry_referen.RedfishRead.Main.{
  World, producer_of, producers_of, handle_command, handle_auth_service,
}
use i_drac_telemetry_referen.RedfishRead.Devices.{opened, handle-new}

producers_of-cons :
    (ip : String) (w : RedfishDevice) (m : Dict RedfishDevice)
    → producers_of m ≡ panics
    → producers_of ((ip, w) ∷ m) ≡ panics
unfolding producers_of
producers_of-cons ip w m e = go w.redfish
  where
    go : (c : Client) → (producer_of w c >>= λ p. producers_of m >>= λ ps. value (p ∷ ps)) ≡ panics
    go no_client = refl
    go nil_client = refl
    go (client h u) = rw e

producers_of-here :
    (ip : String) (w : RedfishDevice) (m : Dict RedfishDevice)
    → producer_of w w.redfish ≡ panics
    → producers_of ((ip, w) ∷ m) ≡ panics
unfolding producers_of
producers_of-here ip w m e = rw e refl

producers_of-get :
    (m : Dict RedfishDevice) (ip : String) (d : RedfishDevice)
    → Dict.get m ip ≡ some d
    → producer_of d d.redfish ≡ panics
    → producers_of m ≡ panics
unfolding Dict.get
producers_of-get [] ip d e nil = cc e
producers_of-get ((j, w) ∷ m) ip d e nil = elim (Bool-cases (j == ip)) [
  | inr other ↦ producers_of-cons j w m (producers_of-get m ip d (sym (rw other) ∙ e) nil)
  | inl same ↦ producers_of-here j w m (there (some-injective w d (sym (rw same) ∙ e)))
]
  where
    there : w ≡ d → producer_of w w.redfish ≡ panics
    there same = ap (λ (x : RedfishDevice). producer_of x x.redfish) same ∙ nil

module _ (json : JsonText) (fails : ℕ → Option String) (ints : IntText)
    (init : String → String → String → ℤ → Option String)
    (init_bearer : String → String → Option String) where
  open json use {Text}

  abbrev handle : Dict RedfishDevice → Service → Dict RedfishDevice × Option RedfishDevice
  handle = handle_auth_service json fails ints init init_bearer

  -- The monitor of a device that is new, if there is one
  abbrev pub start_new :
      (numbers : Numbers) (answers : Answers)
      → Bool
      → Option RedfishDevice
      → Outcome (Option (Started numbers answers))
  start_new numbers answers include_alerts none = value none
  start_new numbers answers include_alerts (some device) =
      redfish_monitor_start numbers answers include_alerts device >>= λ started.
      value (some started)

  -- A new service whose type of authorization is neither of the two has its monitor started, and
  -- the monitor panics.
  pub start_new-panics :
      (numbers : Numbers) (answers : Answers) (include_alerts : Bool) (devices : Dict RedfishDevice)
      (s : Service)
      → s.ip == "" ≡ false
      → Dict.get devices s.ip ≡ none
      → eq_int s.auth_type auth_type_username_password ≡ false
      → eq_int s.auth_type auth_type_bearer_token ≡ false
      → start_new numbers answers include_alerts (handle devices s).1 ≡ panics
  unfolding redfish_monitor_start
  start_new-panics numbers answers include_alerts devices s named new no_user no_token =
      rw (handle-new json fails ints init init_bearer devices s named new, no_user, no_token) refl

  handle_command-getproducers :
      (w : World Text) (env : Envelope)
      → env.type ≡ "getproducers"
      → producers_of w.devices ≡ panics
      → handle_command json fails ints w env ≡ panics
  unfolding handle_command
  handle_command-getproducers w env asked e = rw (asked, e) refl

  -- When `InitBearer` fails for a new service, the program panics at the next GETPRODUCERS.
  pub init_bearer-panics :
      (w : World Text) (env : Envelope) (s : Service) (err : String)
      → env.type == "getproducers" ≡ true
      → s.ip == "" ≡ false
      → Dict.get w.devices s.ip ≡ none
      → eq_int s.auth_type auth_type_username_password ≡ false
      → eq_int s.auth_type auth_type_bearer_token ≡ true
      → init_bearer s.ip (secret s.auth "token") ≡ some err
      → handle_command json fails ints (record w { devices = (handle w.devices s).0 }) env ≡ panics
  init_bearer-panics w env s err asked named new no_user token e =
      handle_command-getproducers _ env ((eq_iff env.type "getproducers").0 asked) (
        producers_of-get (handle w.devices s).0 s.ip (opened json fails ints init init_bearer s)
          (rw (handle-new json fails ints init init_bearer w.devices s named new)
            (get-put_same w.devices s.ip _))
          (rw (no_user, token, e) refl))
