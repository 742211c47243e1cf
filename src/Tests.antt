-- ===== src/Tests.antt =====
-- Runs of the definitions on concrete inputs, and instances of the theorems.
mod Sse
mod Kafka
mod Wire
mod Service
mod Databus
mod Config
mod Redfish
mod KafkaPump
mod Device
mod Auth
mod RedfishRead
mod Stream
mod Disc
mod SplunkPump
mod OtelPump
mod DbDiscAuth
mod Settings
mod ConfigUi
mod PrometheusPump
mod Fixtures
