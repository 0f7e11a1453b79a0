-- ===== src/Listing.antt =====
-- The handlers that only read: handlers/wharf_channels.go and handlers/core.go.
pub mod Target
pub mod Channels
pub mod Core
