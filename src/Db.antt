-- ===== src/Db.antt =====
-- db/
pub mod SqlGuard
pub mod Client
