-- ===== src/Freshness.antt =====
-- internal/freshness: whether a law's text is proven current.
pub mod Evidence
pub mod Refs
pub mod Issues
pub mod Eval
pub mod Unresolved
