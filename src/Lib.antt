-- ===== src/Lib.antt =====
-- A model of the iDRAC telemetry reference tools, and what it shows of them.
--
-- The tools read telemetry of servers over server-sent events, put it on a message bus, and pumps
-- take it from there to databases. The files follow the packages.
--
-- * Sse (internal/sse): `Event.Encode` is `Sse.Event.encode`; `ReadCloser` and its `Next` are in
--   `Sse.Reader`, with `bufio.Reader.ReadLine` in `Sse.Reader.Lines`; `EventSource` is in
--   `Sse.Source`. Streams are lists of bytes with the error that they end with; replies to requests
--   and the outcomes of waits are lists that the operations take from the front. The loop of
--   `ReadCloser.Next` has more fuel than bytes, and each read takes a byte; that of
--   `EventSource.Next` has more fuel than waits, and each round but the last takes one.
-- * Kafka (internal/messagebus/kafka): the cache of connections, with `SendMessage`,
--   `SendMessageWithHeaders`, `TopicConnect`, `shouldRestartOnErr` and `Close`. The broker is a
--   parameter, by the numbers of the dials and the writes. Deadlines and logging have no effect in
--   the model, and leaving the process is an outcome.
-- * Json (encoding/json) and Wire (internal/wire): documents are trees, and their text is a parameter
--   that reads back what it has printed. `EncodeEnvelope` and `DecodeEnvelope` go field by field;
--   `Json.Structs` has what the readers of records share.
-- * Service (internal/service): the bus is a parameter, by the numbers of the sends. `Call` is
--   `begin_call`, and then `finish_call` or `time_out`; `receive_reply` is the goroutine that
--   listens for replies, so any order of these steps is a run. `Service.Typed` is the loop of the
--   clients that decode the payloads of one type.
-- * Databus (internal/databus, pkg/databus): the receivers that `HandleSubscribeEnvelope` keeps,
--   `SendGroup`, the documents of data groups, `Subscribe` and `GetGroup` of the
--   client, and `AddDataGroup`.
-- * Config (internal/config): one message in the loop of `ConfigService.Run` is `Config.run`; the
--   entries act on a state of the program. `Config.Client` has the commands of `ConfigClient`.
-- * Redfish (internal/redfish): the members of a payload by name and by index; a panic and
--   the end of the process are outcomes, and `GetUri` is a parameter. `Walk` is in `Redfish.Walk`; it
--   never goes deeper than there are addresses that the device answers, which bounds its fuel.
-- * KafkaPump (cmd/kafkapump): one group in the loop of `handleGroups`; the parsing of times and
--   floats, and the encoding of events, which fails for a value that is not finite, are parameters.
-- * Device (pkg/redfishread/redfishdevice.go): `parseReport` and `parseRedfishEvents` make a group of
--   a payload, with `GetUri` and the clock as parameters; the listeners are `Device.Listener`, over
--   the events of their channels. `Device.Stream` is what internal/redfish/redfish.go sends on these
--   channels from a stream of Sse: `StartSSE`, `GetLceSSE`, and their callers.
-- * Auth (internal/auth/auth.go): services, items, and their documents; the commands of
--   `AuthorizationClient` are in `Auth.Client`, and what it reads of replies there and in
--   `Auth.Reads`. The text of integers is a parameter that reads back what it has printed.
-- * RedfishRead (pkg/redfishread/redfishread.go): `ValidateAndAddDevice` on the map of devices, and
--   `RedfishMonitorStart` on what the device answers. `RedfishRead.Main` is the program
--   cmd/redfishread/redfishread.go: a command in its loop, and a service that comes in; both, in any
--   order, are the arrivals of `RedfishRead.Devices.Starts`.
--   `RedfishRead.Systems` is `GetSystemId` and `GetSysInfo` of internal/redfish/redfish.go.
-- * Disc (internal/disc/disc.go), with the programs cmd/simpledisc and cmd/simpleauth in
--   `Disc.Programs`: what the ini files hold, and the shell of an enclosure controller, are
--   parameters, and goroutines send what waits in any order. State (internal/state/state.go) has the commands about the status of services.
-- * SplunkPump (cmd/splunkpump): the body that is posted for a group.
-- * OtelPump (cmd/otelpump/otelpump.go): how values are grouped; `OtelPump.Metrics` makes metrics of
--   them, `OtelPump.Logs` makes records of events, `OtelPump.Sending` is the loop over the groups and
--   `OtelPump.Meta` reads the file that says how metrics are converted. The orders in which maps are
--   gone through are a parameter, by loop; a panic is the value none.
-- * DbDiscAuth (cmd/dbdiscauth/dbdiscauth.go): the commands on services that are kept in a database,
--   which is a parameter with the behaviour of its statements (`DbDiscAuth.Table`). A program goes by
--   steps: commands, and broadcasts that goroutines send in any order (`DbDiscAuth.Steps`).
-- * Settings (cmd/*): defaults, environment and properties of the programs.
-- * ConfigUi (cmd/configui/configui.go): what the handlers of the configuration page send for a form,
--   and what its pages show of the answers of the pumps.
-- * PrometheusPump (cmd/prometheuspump/prometheuspump.go): the gauges that are made and set for the
--   values of data groups; the registry is a parameter, and a panic is the value none.
-- * Common holds what these share: tests on numbers, lists, maps, 64-bit integers and ASCII text.
-- * Tests runs the definitions and applies the theorems.
--
-- Not modelled: TLS set-up, logging, the HTTP and database clients, and the message brokers.
pub mod Common
pub mod Sse
pub mod Kafka
pub mod Json
pub mod Wire
pub mod Service
pub mod Databus
pub mod Config
pub mod Redfish
pub mod KafkaPump
pub mod Device
pub mod Auth
pub mod RedfishRead
pub mod Disc
pub mod State
pub mod SplunkPump
pub mod OtelPump
pub mod Settings
pub mod DbDiscAuth
pub mod ConfigUi
pub mod PrometheusPump
pub mod Tests
