-- ===== src/Api.antt =====
-- The API layer: the HTTP client and the protocol clients that are built on it.
pub mod Http
pub mod Mcp
