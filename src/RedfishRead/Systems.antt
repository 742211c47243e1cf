-- ===== src/RedfishRead/Systems.antt =====
-- internal/redfish/redfish.go: what a device is called, and what its pages say of it. `failed` is an
-- error of the method.
use i_drac_telemetry_referen.Common.{
  ℕ, zero, suc, true, false, Option, none, some, List, [], ◌∷◌, String, if◌then◌else◌,
}
use i_drac_telemetry_referen.Common.Text.{◌==◌, append}
use i_drac_telemetry_referen.Json.{Json, Fields}
use i_drac_telemetry_referen.Redfish.{
  RedfishPayload, Outcome, value, failed, panics, exits, ◌>>=◌, member, has, as_text, as_object,
  value_to_payload, get_property_by_name, get_property_by_index, elements_of,
}
use i_drac_telemetry_referen.Device.Labels.{after_last_slash}
use i_drac_telemetry_referen.RedfishRead.{SysInfo, get_collection_size}

-- `valueToPayload` of a member; nil is of no known type.
abbrev member_payload : Option Json → Outcome RedfishPayload
member_payload none = exits
member_payload (some j) = value_to_payload j

abbrev text_if : Option Json → Outcome (Option String)
text_if o = if has o then (as_text o >>= λ v. value (some v)) else value none

abbrev dell_tag : RedfishPayload → Outcome (Option String)
dell_tag oem =
    if has (member oem.object "Dell")
    then (member_payload (member oem.object "Dell") >>= λ dell.
        text_if (member dell.object "ServiceTag"))
    else value none

-- The service tag under "Oem", if there is one
unfoldable pub oem_tag : RedfishPayload → Outcome (Option String)
unfolding member value_to_payload
oem_tag root =
    if has (member root.object "Oem")
    then (member_payload (member root.object "Oem") >>= dell_tag)
    else value none

abbrev text_or_none : Option Json → Outcome String
text_or_none o = if has o then as_text o else value ""

abbrev or_else : Option String → Outcome String → Outcome String
or_else none o = o
or_else (some tag) o = value tag

abbrev empty_info : SysInfo
empty_info = record {
  host_name = "";
  sku = "";
  model = "";
  fw_ver = "";
  fqdn = "";
  img_id = "";
  error = false;
}

module _ (int_of : String → ℕ) (get_uri : String → Outcome RedfishPayload) where
  -- The MAC address, for a blade chassis that has no SKU
  abbrev mac_address : Fields → Outcome String
  mac_address chassis = as_text (member chassis "@odata.id") >>= λ id.
      get_uri (append id "/Attributes") >>= λ oem_chassis.
      member_payload (member oem_chassis.object "Attributes") >>= λ attributes.
      as_text (member attributes.object "NIC.1.MACAddress")

  abbrev blade_id : Fields → Outcome String
  blade_id chassis =
      as_text (member chassis "SKU") >>= λ sku. if sku == "" then mac_address chassis else value sku

  -- The id of a chassis, or none if it is no enclosure
  unfoldable pub enclosure_id : Fields → Outcome (Option String)
  unfolding member value_to_payload
  enclosure_id chassis = as_text (member chassis "ChassisType") >>= λ type.
      if type == "Enclosure"
      then (as_text (member chassis "Name") >>= λ name.
          (if name == "Blade Chassis" then blade_id chassis else value name) >>= λ id.
          value (some id))
      else value none

  abbrev id_or_next : Outcome (Option String) → Outcome String → Outcome String
  id_or_next o next = o >>= λ id. or_else id next

  -- A chassis that cannot be fetched is passed over.
  abbrev chassis_or_next : Outcome RedfishPayload → Outcome String → Outcome String
  chassis_or_next (value chassis) next = id_or_next (enclosure_id chassis.object) next
  chassis_or_next failed next = next
  chassis_or_next panics next = panics
  chassis_or_next exits next = exits

  unfoldable pub first_enclosure : ℕ → ℕ → RedfishPayload → Outcome String
  unfolding enclosure_id get_property_by_index
  first_enclosure zero i collection = failed
  first_enclosure (suc rounds) i collection =
      chassis_or_next (get_property_by_index get_uri collection i)
        (first_enclosure rounds (suc i) collection)

  abbrev from_chassis : RedfishPayload → Outcome String
  from_chassis root = get_property_by_name get_uri root "Chassis" >>= λ collection.
      get_collection_size int_of collection >>= λ n. first_enclosure n zero collection

  -- `GetSystemId` of a redfish client
  unfoldable pub get_system_id : Outcome String
  unfolding oem_tag first_enclosure get_property_by_name get_collection_size
  get_system_id =
      get_uri "/redfish/v1" >>= λ root. oem_tag root >>= λ tag. or_else tag (from_chassis root)

  -- The page of the chassis, which is read also where it could not be fetched and is nil.
  abbrev serial_number : Outcome RedfishPayload → Outcome String
  serial_number (value chassis) =
      text_if (member chassis.object "SerialNumber") >>= λ serial. or_else serial failed
  serial_number failed = panics
  serial_number panics = panics
  serial_number exits = exits

  -- `GetSystemId` of a rack controller
  unfoldable pub irc_system_id : Outcome String
  unfolding oem_tag
  irc_system_id = get_uri "/redfish/v1/Managers/IRC" >>= λ managers.
      oem_tag managers >>= λ tag. or_else tag (serial_number (get_uri "/redfish/v1/Chassis/IRC"))

  -- A page that cannot be fetched ends the method, with what has been read.
  abbrev with_page : SysInfo → Outcome RedfishPayload → (Fields → Outcome SysInfo) → Outcome SysInfo
  with_page info (value page) k = k page.object
  with_page info failed k = value (record info { error = true })
  with_page info panics k = panics
  with_page info exits k = exits

  abbrev image_of : Option Json → Outcome String
  image_of none = value ""
  image_of (some image) = as_object (some image) >>= λ fields.
      as_text (member fields "@odata.id") >>= λ id. value (after_last_slash id)

  abbrev image_id : Option Json → Outcome String
  image_id links =
      if has links
      then (as_object links >>= λ fields. image_of (member fields "ActiveSoftwareImage"))
      else value ""

  abbrev firmware_page : SysInfo → Fields → Outcome SysInfo
  firmware_page info page = text_or_none (member page "FirmwareVersion") >>= λ fw_ver.
      image_id (member page "Links") >>= λ img_id.
      value (record info { fw_ver = fw_ver; img_id = img_id })

  abbrev nic_page : SysInfo → Fields → Outcome SysInfo
  nic_page info page = text_or_none (member page "FQDN") >>= λ fqdn.
      with_page (record info { fqdn = fqdn })
        (get_uri "/redfish/v1/Managers/iDRAC.Embedded.1?$select=FirmwareVersion,Links")
        (firmware_page (record info { fqdn = fqdn }))

  abbrev named_by : String → String → String → SysInfo
  named_by host_name sku model = record empty_info {
    host_name = host_name;
    sku = sku;
    model = model;
  }

  abbrev system_page : Fields → Outcome SysInfo
  system_page page = text_or_none (member page "HostName") >>= λ host_name.
      text_or_none (member page "SKU") >>= λ sku. text_or_none (member page "Model") >>= λ model.
      with_page (named_by host_name sku model)
        (get_uri "/redfish/v1/Managers/iDRAC.Embedded.1/EthernetInterfaces/NIC.1?$select=FQDN")
        (nic_page (named_by host_name sku model))

  -- `GetSysInfo` of a redfish client
  unfoldable pub get_sys_info : Outcome SysInfo
  unfolding member after_last_slash
  get_sys_info =
      with_page empty_info
        (get_uri "/redfish/v1/Systems/System.Embedded.1?$select=HostName,SKU,Model") system_page

  abbrev first_address : List Json → Outcome SysInfo
  first_address [] = value empty_info
  first_address (j ∷ js) = value_to_payload j >>= λ ip_info.
      text_or_none (member ip_info.object "Address") >>= λ address.
      value (record empty_info { fqdn = address })

  abbrev addresses_page : Fields → Outcome SysInfo
  addresses_page page =
      if has (member page "IPv4Addresses")
      then (member_payload (member page "IPv4Addresses") >>= λ ips.
          first_address (elements_of ips.array))
      else value empty_info

  -- `GetSysInfo` of a rack controller
  unfoldable pub irc_sys_info : Outcome SysInfo
  unfolding member value_to_payload
  irc_sys_info =
      with_page empty_info
        (get_uri "/redfish/v1/Managers/IRC/EthernetInterfaces/mgmt0?$select=IPv4Addresses")
        addresses_page
