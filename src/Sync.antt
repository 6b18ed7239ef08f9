-- ===== src/Sync.antt =====
-- internal/sync: the jobs that keep the store current.
pub mod Reconcile
