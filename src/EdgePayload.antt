-- ===== src/EdgePayload.antt =====
-- src/general/lib/edge_payload: the payloads that the device reports to the server. A payload is
-- built by its `init` and `add` functions, and encoded into a buffer by its `to_buf` function.
-- Header has the common header and the shape that all encoders share, Status, Event, Monitor and
-- UpdateGet one payload each, and Decode reads the encoded bytes back.
pub mod Header
pub mod Items
pub mod Status
pub mod Event
pub mod UpdateGet
pub mod Monitor
pub mod Decode
mod Tests
