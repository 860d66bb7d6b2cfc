-- ===== src/Workers.antt =====
-- app/workers
pub mod MigrationTasks
pub mod System
