-- ===== src/Discovery.antt =====
-- internal/discovery: links between laws that were found in the texts, beside the seeded ones.
pub mod Merge
pub mod Books
pub mod Parents
pub mod Titles
pub mod Preamble
pub mod Lookup
pub mod Fussnoten
pub mod Ingest
