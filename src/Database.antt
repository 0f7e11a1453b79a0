-- ===== src/Database.antt =====
-- models/postgres.go: each method of `PostgresDatabase` as its SQL statement reads over the tables.
pub mod Users
pub mod Projects
pub mod Builds
pub mod Files
pub mod Channels
pub mod Sessions
pub mod Integrity
