-- ===== src/Build.antt =====
-- Publishing: handlers/wharf_builds.go, with the access rules of handlers/wharf_support.go and the
-- build states of handlers/wharf_archive.go.
pub mod Access
pub mod State
pub mod Create
pub mod Files
