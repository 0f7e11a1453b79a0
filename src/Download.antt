-- ===== src/Download.antt =====
-- The downloads of handlers/wharf_downloads.go.
pub mod UpgradePath
pub mod Filename
pub mod Serve
