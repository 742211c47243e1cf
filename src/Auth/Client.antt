-- ===== src/Auth/Client.antt =====
-- internal/auth/auth.go: the commands of the authorization client, and what it makes of replies.
use i_drac_telemetry_referen.Common.{
  ℕ, Bool, ◌||◌, Option, none, some, List, [], ◌∷◌, String, if◌then◌else◌,
}
use i_drac_telemetry_referen.Common.Text.{◌==◌, append}
use i_drac_telemetry_referen.Json.{Json, JsonText, null, str, arr, obj, end, field}
use i_drac_telemetry_referen.Json.Structs.{read_items, read_text}
use i_drac_telemetry_referen.Wire.{Marshalled, nil, document, text_field}
use i_drac_telemetry_referen.Service.{
  Bus, BaseClient, CallResult, response, call_error, send_to, new_base_client,
}
use i_drac_telemetry_referen.Service.Typed.{received}
use i_drac_telemetry_referen.Auth.{
  IntText, Service, ServiceItem, SplunkConfig, ValveState, Login, empty_service, empty_service_item,
  marshal_service, marshal_service_item, marshal_login, read_service, read_service_item,
}

-- `NewAuthorizationClient`
unfoldable pub new_authorization_client : {T : Type 0} → Bus T → String → BaseClient T
new_authorization_client bus client_name =
    new_base_client bus "/queue/authorization/command" "/queue/authorization/reply." client_name

-- `omitempty` on a string
unfoldable pub marshal_splunk_config : SplunkConfig → Json
unfolding text_field
marshal_splunk_config c =
    obj (text_field "url" c.url (text_field "key" c.key (text_field "index" c.index end)))

abbrev pub marshal_valve_state : ValveState → Json
marshal_valve_state v =
    obj (
      field "ip" (str v.ip) (field "state1" (str v.v_state1) (field "state2" (str v.v_state2) end)))

-- The states of `UpdateServiceState`
unfoldable pub is_service_state : String → Bool
is_service_state state =
    state == "Connection Failed"
    || state == "Starting"
    || state == "Running"
    || state == "Telemetry Service Not Found"
    || state == "Running Only Alerts"
    || state == "Leak Detected"
    || state == "Monitoring"

-- The states of `UpdateServiceItemState`
unfoldable pub is_service_item_state : String → Bool
is_service_item_state state =
    state == "Shutdown Received"
    || state == "Shutdown Failed"
    || state == "Connection Failed"
    || state == "Running"
    || state == "Power Status On"
    || state == "Power Status Off"

module _ (json : JsonText) (fails : ℕ → Option String) (ints : IntText) where
  open json use {Text}

  -- `Send` of the client
  unfoldable pub send : BaseClient Text → String → Marshalled → BaseClient Text × Option String
  unfolding send_to
  send ac msg_type payload =
      let (bus, e) = send_to json fails ac.bus ac.command_queue msg_type payload in
      (record ac { bus = bus }, e)

  -- `BroadcastService`, on the bus of the service
  unfoldable pub broadcast_service : Bus Text → Service → Bus Text × Option String
  unfolding marshal_service
  broadcast_service bus svc =
      send_to json fails bus "/queue/authorization" "service" (document (marshal_service ints svc))

  -- `GetHECConfig`
  unfoldable pub get_hec_config : BaseClient Text → BaseClient Text
  unfolding send
  get_hec_config ac = (send ac "gethecconfig" nil).0

  -- `ResendAll`
  unfoldable pub resend_all : BaseClient Text → BaseClient Text
  unfolding send
  resend_all ac = (send ac "resend" nil).0

  -- `SplunkAddHEC`
  unfoldable pub splunk_add_hec : BaseClient Text → SplunkConfig → BaseClient Text × Option String
  unfolding send
  splunk_add_hec ac config = send ac "splunkaddhec" (document (marshal_splunk_config config))

  -- `AddService`
  unfoldable pub add_service : BaseClient Text → Service → BaseClient Text × Option String
  unfolding send
  add_service ac service = send ac "addservice" (document (marshal_service ints service))

  -- `DeleteService`
  unfoldable pub delete_service : BaseClient Text → Service → BaseClient Text × Option String
  unfolding send
  delete_service ac service = send ac "deleteservice" (document (marshal_service ints service))

  -- `UpdateService`
  unfoldable pub update_service : BaseClient Text → Service → BaseClient Text × Option String
  unfolding send
  update_service ac service = send ac "updateservice" (document (marshal_service ints service))

  -- `UpdateServiceX`
  unfoldable pub update_service_x : BaseClient Text → Service → BaseClient Text × Option String
  unfolding send
  update_service_x ac service = send ac "updateservicex" (document (marshal_service ints service))

  -- `UpdateServiceXState`
  unfoldable pub update_service_x_state :
      BaseClient Text → String → String → BaseClient Text × Option String
  unfolding update_service_x
  update_service_x_state ac state ip =
      update_service_x ac (record empty_service { ip = ip; state = state })

  -- `UpdateLogin`
  unfoldable pub update_login : BaseClient Text → Login → BaseClient Text × Option String
  unfolding send
  update_login ac login = send ac "updatelogin" (document (marshal_login ints login))

  -- `UpdateServiceState`, which does not look at the outcome of the send
  unfoldable pub update_service_state :
      BaseClient Text → String → String → BaseClient Text × Option String
  unfolding is_service_state update_service
  update_service_state ac state sip =
      if is_service_state state
      then ((update_service ac (record empty_service { ip = sip; state = state })).0, none)
      else (ac, some (append "invalid state " state))

  -- `UpdateValveState`
  unfoldable pub update_valve_state :
      BaseClient Text → String → String → String → BaseClient Text × Option String
  unfolding send
  update_valve_state ac ip state1 state2 =
      send ac "updatevalvestate"
        (document (marshal_valve_state (record { ip = ip; v_state1 = state1; v_state2 = state2 })))

  -- `AddServiceItem`
  unfoldable pub add_service_item : BaseClient Text → ServiceItem → BaseClient Text × Option String
  unfolding send
  add_service_item ac si = send ac "addserviceitem" (document (marshal_service_item ints si))

  -- `DeleteServiceItem`
  unfoldable pub delete_service_item :
      BaseClient Text → ServiceItem → BaseClient Text × Option String
  unfolding send
  delete_service_item ac si = send ac "deleteserviceitem" (document (marshal_service_item ints si))

  -- `UpdateServiceItem`
  unfoldable pub update_service_item :
      BaseClient Text → ServiceItem → BaseClient Text × Option String
  unfolding send
  update_service_item ac si = send ac "updateserviceitem" (document (marshal_service_item ints si))

  abbrev pub item_in_state : String → String → ServiceItem
  item_in_state state siip = record empty_service_item {
    service = record empty_service { ip = siip; state = state };
  }

  -- `UpdateServiceItemState`, which does not look at the outcome of the send either
  unfoldable pub update_service_item_state :
      BaseClient Text → String → String → BaseClient Text × Option String
  unfolding is_service_item_state update_service_item
  update_service_item_state ac state siip =
      if is_service_item_state state
      then ((update_service_item ac (item_in_state state siip)).0, none)
      else (ac, some (append "invalid state " state))

  -- `AddSystemType`
  unfoldable pub add_system_type : BaseClient Text → String → BaseClient Text × Option String
  unfolding send
  add_system_type ac sys_type = send ac "addsystemtype" (document (str sys_type))

  -- `GetService`, over the messages of the event queue
  unfoldable pub get_service : List Text → List Service
  unfolding read_service
  get_service messages = received empty_service (read_service ints) json fails "service" messages

  abbrev pub or_default {ℓ} : {A : Type ℓ} → A → Option A → A
  or_default a none = a
  or_default a (some b) = b

  -- What a call of the client decodes into `value`, or `empty` for an error.
  abbrev pub decoded_or {ℓ} : {A : Type ℓ} → (Json → Option A) → A → A → CallResult → A
  decoded_or read value empty (response none) = value
  decoded_or read value empty (response (some j)) = or_default empty (read j)
  decoded_or read value empty (call_error e) = empty

  -- A slice that has been made empty; null makes it nil, which has no elements either.
  abbrev pub read_list {ℓ} : {A : Type ℓ} → (Json → Option A) → Json → Option (List A)
  read_list read null = some []
  read_list read (arr items) = read_items read items
  read_list read j = none

  -- `GetAllServices`, from what the call returns
  unfoldable pub get_all_services : CallResult → List Service
  unfolding read_service read_items
  get_all_services r = decoded_or (read_list (read_service ints)) [] [] r

  -- `GetAllSystemTypes`
  unfoldable pub get_all_system_types : CallResult → List String
  unfolding read_items
  get_all_system_types r = decoded_or (read_list read_text) [] [] r

  -- `GetServiceWithIP`
  unfoldable pub get_service_with_ip : CallResult → Service
  unfolding read_service
  get_service_with_ip r = decoded_or (read_service ints) empty_service empty_service r

  -- `GetServiceItems`
  unfoldable pub get_service_items : CallResult → List ServiceItem
  unfolding read_service_item read_items
  get_service_items r = decoded_or (read_list (read_service_item ints)) [] [] r

  abbrev pub only : List ServiceItem → ServiceItem
  only (si ∷ []) = si
  only sis = empty_service_item

  -- `GetServiceItemWithIP`
  unfoldable pub get_service_item_with_ip : CallResult → ServiceItem
  unfolding get_service_items
  get_service_item_with_ip r = only (get_service_items r)
