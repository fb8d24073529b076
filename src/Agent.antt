-- ===== src/Agent.antt =====
-- The program cmd/agent/main.go.
pub mod Names
pub mod Validate
pub mod Load
pub mod Reload
pub mod Supervise
pub mod Fan
pub mod Settings
mod Tests
