-- ===== src/Service.antt =====
-- internal/service: what the interfaces of the program answer about a law.
pub mod Links
pub mod Freshness
pub mod Bundle
pub mod Requests
