-- ===== src/Core.antt =====
-- app/core
pub mod Database
pub mod Constants
