-- ===== src/Turn.antt =====
-- turn.go: the owned turn.
pub mod Result
pub mod State
pub mod Dispatch
pub mod System
pub mod Invariant
pub mod Callers
pub mod Ending
pub mod Reserve
pub mod Order
pub mod Causes
pub mod Contract
mod Examples
