-- ===== src/Store.antt =====
-- internal/daemon/store.go: the tables of the SQLite database and the store's methods.
-- The statements are in Store/Sql, the methods of one job in Store/Jobs, and so on.
pub mod Tables
pub mod Sql
pub mod Jobs
pub mod Claim
pub mod Batch
pub mod Logs
pub mod Settings
pub mod Listing
pub mod Lifecycle
pub mod Retry
pub mod Keeps
pub mod Invariant
