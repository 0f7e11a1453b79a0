-- ===== src/Archive.antt =====
-- The archive side of the server: handlers/wharf_archive.go, handlers/wharf_rebuild.go and
-- handlers/archive_gc.go. An archive is a cache of the tree that a chain of patches makes.
pub mod Files
pub mod Patch
pub mod Rebuild
pub mod Frame
pub mod Collect
pub mod Gc
