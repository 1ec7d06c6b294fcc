-- ===== src/Client.antt =====
-- client.go: the protocol client.
pub mod Options
pub mod Subscriber
pub mod Request
pub mod State
pub mod Operations
pub mod Handshake
pub mod Reader
pub mod Calls
pub mod Reconnect
pub mod System
pub mod Invariant
pub mod Delivery
pub mod Closing
pub mod Ownership
mod Examples
