-- ===== src/Service.antt =====
-- The service layer: what it decides from the answers of the platform.
pub mod Flow
pub mod Coverage
pub mod Paging
pub mod Research
pub mod Oracles
