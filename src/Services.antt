-- ===== src/Services.antt =====
-- app/services
pub mod MigrationService
pub mod Stored
pub mod Credentials
pub mod ConnectionService
pub mod SchemaService
