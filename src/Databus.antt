-- ===== src/Databus.antt =====
-- internal/databus/databus.go: the service that sends data groups to the queues that subscribed.
-- `SendGroup` goes on after an error of the bus, which it logs.
pub mod Group
pub mod Receivers
pub mod FanOut
pub mod Reading
pub mod RoundTrip
pub mod Client
pub mod Groups
pub mod Subscription
use i_drac_telemetry_referen.Common.{
  ℕ, Bool, true, false, ◌||◌, Option, List, [], ◌∷◌, ◌++◌, String, if◌then◌else◌,
}
use i_drac_telemetry_referen.Common.Text.{◌==◌}
use i_drac_telemetry_referen.Json.{JsonText}
use i_drac_telemetry_referen.Wire.{Envelope, document}
use i_drac_telemetry_referen.Service.{Bus, send_to, listen_to_queue}
use Group.{DataGroup, marshal_group}

-- `slices.Contains`
abbrev pub contains : List String → String → Bool
contains [] q = false
contains (r ∷ rs) q = r == q || contains rs q

-- `HandleSubscribeEnvelope`, on the receivers of the service
unfoldable pub handle_subscribe_envelope : List String → Envelope → List String
handle_subscribe_envelope receivers env =
    if env.reply_to == ""
    then receivers
    else if contains receivers env.reply_to
    then receivers
    else receivers ++ env.reply_to ∷ []

-- `handleEnvelope`
unfoldable pub handle_envelope : List String → Envelope → List String
unfolding handle_subscribe_envelope
handle_envelope receivers env =
    if env.type == "subscribe" then handle_subscribe_envelope receivers env else receivers

module _ (json : JsonText) (fails : ℕ → Option String) where
  open json use {Text}

  -- `SendGroupToQueue`
  unfoldable pub send_group_to_queue : Bus Text → DataGroup → String → Bus Text × Option String
  unfolding marshal_group
  send_group_to_queue bus group queue =
      send_to json fails bus queue "datagroup" (document (marshal_group group))

  -- `SendGroup`
  unfoldable pub send_group : Bus Text → List String → DataGroup → Bus Text
  unfolding send_group_to_queue
  send_group bus [] group = bus
  send_group bus (queue ∷ rest) group =
      send_group (send_group_to_queue bus group queue).0 rest group

  -- `ReceiveEnvelopes` of the service, over the messages of the command queue
  unfoldable pub receive_envelopes : List String → List Text → List String × List Envelope
  receive_envelopes receivers messages =
      listen_to_queue json fails handle_envelope receivers messages
