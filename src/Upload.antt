-- ===== src/Upload.antt =====
-- handlers/wharf_upload_sessions.go: deferred resumable uploads.
pub mod Range
pub mod Session
