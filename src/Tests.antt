-- ===== src/Tests.antt =====
-- The theorems at concrete inputs: a law "xg" whose Stand cites an ordinance that a child reflects.
mod Data
mod Citations
mod Verdicts
mod Links
mod Served
mod Indexed
mod Reconciled
mod Evidence
mod Requests
mod Load
mod Buckets
mod Stored
mod Parents
mod Ingested
