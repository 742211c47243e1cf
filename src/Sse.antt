-- ===== src/Sse.antt =====
-- internal/sse: server-sent events. `Decimal` is Go's decimal text of integers, `Event` the writer
-- of event.go, `Reader` the parser of read_closer.go, `Source` the connection of event_source.go.
pub mod Errors
pub mod Decimal
pub mod Event
pub mod Reader
pub mod RoundTrip
pub mod Source
