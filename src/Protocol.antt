-- ===== src/Protocol.antt =====
-- protocol/protocol.go: requests, server events and the frames that carry them, over JSON values.
-- The pointer forms of events, which no decoder of the program makes, are left out.
pub mod Event
pub mod Request
pub mod Decode
pub mod Trip
mod Examples
