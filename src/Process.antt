-- ===== src/Process.antt =====
-- The process around the server: main.go, handlers/limits.go and the settings of handlers/archive_gc.go.
pub mod Settings
pub mod Storage
pub mod Oauth
pub mod Commands
pub mod Routes
