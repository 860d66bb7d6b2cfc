-- ===== src/Schemas.antt =====
-- app/schemas
pub mod Connection
pub mod Migration
pub mod Columns
pub mod Request
