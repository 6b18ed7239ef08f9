-- ===== src/Store.antt =====
-- internal/store/store.go and discovery.go: the entities in the buckets of a bbolt database, as JSON.
pub mod Buckets
pub mod Entities
pub mod Discovered
pub mod Operations
pub mod Rows
pub mod Deleted
pub mod Replaced
pub mod Ingested
pub mod Writes
pub mod Maps
pub mod Verdicts
