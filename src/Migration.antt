-- ===== src/Migration.antt =====
-- app/migration
pub mod Validator
pub mod Value
pub mod Mapper
pub mod Planner
pub mod Executor
