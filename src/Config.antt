-- ===== src/Config.antt =====
-- The configuration: the settings and how they are put together.
pub mod Settings
