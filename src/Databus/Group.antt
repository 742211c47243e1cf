-- ===== src/Databus/Group.antt =====
-- internal/databus/databus.go: data groups, and the documents that encoding/json makes of them.
-- A slice is `none` when it is nil.
use i_drac_telemetry_referen.Common.{Option, List, String}
use i_drac_telemetry_referen.Json.Structs.{slice}
use i_drac_telemetry_referen.Json.{Json, str, obj, end, field}

pub record DataValue : Type 0 where
  pub id : String
  pub context : String
  pub label : String
  pub value : String
  pub system : String
  pub host_name : String
  pub timestamp : String

pub record EventValue : Type 0 where
  pub event_type : String
  pub event_id : String
  pub event_timestamp : String
  pub member_id : String
  pub message_severity : String
  pub message : String
  pub message_id : String
  pub message_args : Option (List String)
  pub origin_of_condition : String

pub record DataGroup : Type 0 where
  pub host_id : String
  pub id : String
  pub label : String
  pub sequence : String
  pub system : String
  pub host_name : String
  pub model : String
  pub sku : String
  pub fqdn : String
  pub fw_ver : String
  pub img_id : String
  pub timestamp : String
  pub values : Option (List DataValue)
  pub events : Option (List EventValue)

unfoldable pub marshal_value : DataValue → Json
marshal_value v = obj (
    field "ID" (str v.id) (
      field "Context" (str v.context) (
        field "Label" (str v.label) (
          field "Value" (str v.value) (
            field "System" (str v.system)
              (field "HostName" (str v.host_name) (field "Timestamp" (str v.timestamp) end)))))))

unfoldable pub marshal_event : EventValue → Json
unfolding slice
marshal_event e = obj (
    field "EventType" (str e.event_type) (
      field "EventId" (str e.event_id) (
        field "EventTimestamp" (str e.event_timestamp) (
          field "MemberId" (str e.member_id) (
            field "MessageSeverity" (str e.message_severity) (
              field "Message" (str e.message) (
                field "MessageId" (str e.message_id) (
                  field "MessageArgs" (slice str e.message_args)
                    (field "OriginOfCondition" (str e.origin_of_condition) end)))))))))

unfoldable pub marshal_group : DataGroup → Json
unfolding slice
marshal_group g = obj (
    field "HostID" (str g.host_id) (
      field "ID" (str g.id) (
        field "Label" (str g.label) (
          field "Sequence" (str g.sequence) (
            field "System" (str g.system) (
              field "HostName" (str g.host_name) (
                field "Model" (str g.model) (
                  field "SKU" (str g.sku) (
                    field "FQDN" (str g.fqdn) (
                      field "FwVer" (str g.fw_ver) (
                        field "ImgID" (str g.img_id) (
                          field "Timestamp" (str g.timestamp) (
                            field "Values" (slice marshal_value g.values)
                              (field "Events" (slice marshal_event g.events) end))))))))))))))
