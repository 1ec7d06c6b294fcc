-- ===== src/Runtime.antt =====
-- launch.go and process_unix.go: the private runtime of a client.
pub mod Shutdown
pub mod Process
pub mod Paths
mod Examples
pub mod Cleanup
pub mod Removal
pub mod Settings
pub mod Launch
pub mod Teardown
pub mod Credentials
pub mod Registry
