-- ===== src/Session.antt =====
-- session.go: the typed events of a session and the identifiers of its compatibility errors.
pub mod Identifier
pub mod TypedEvent
pub mod EventType
pub mod Sending
pub mod Calls
pub mod Send
pub mod Start
mod Examples
