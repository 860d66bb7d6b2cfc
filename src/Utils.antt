-- ===== src/Utils.antt =====
-- app/utils
pub mod Json
pub mod Encryption
pub mod Helpers
