-- ===== src/Jobs.antt =====
-- server/api.go: a command for several clients.
pub mod Requests
pub mod Targets
pub mod Execution
pub mod Attempts
