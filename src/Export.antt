-- ===== src/Export.antt =====
-- internal/export: the texts that are taken out of a law's XML.
pub mod Stand
pub mod Ausfertigung
pub mod Chunks
