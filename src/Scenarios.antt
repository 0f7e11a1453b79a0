-- ===== src/Scenarios.antt =====
-- Concrete worlds, and the theorems applied to them.
pub mod Stash
mod Archives
mod Requests
mod Uploads
mod Access
mod Settings
