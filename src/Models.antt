-- ===== src/Models.antt =====
-- app/models: the rows of the application's database. A time is a number of seconds.
pub mod Metadata
use migrate_app_backend.Base.{ℕ, String, Option, List}
use migrate_app_backend.Base.Dict.{Dict}
use migrate_app_backend.Core.Constants.{MigrationStatus}

-- `Migration`, less its key `id`, under which `Database` holds it, and the `created_at` that the
-- database writes
pub record Migration : Type 0 where
  pub status : MigrationStatus
  pub source_connection : String
  pub destination_connection : String
  pub tables_config : Option String
  pub migration_plan : Option String
  pub settings : Option String
  pub total_tables : ℕ
  pub completed_tables : ℕ
  pub total_rows : ℕ
  pub processed_rows : ℕ
  pub current_table : Option String
  pub started_at : Option ℕ
  pub completed_at : Option ℕ
  pub celery_task_id : Option String
  pub error_message : Option String

-- `MigrationLog`
pub record MigrationLog : Type 0 where
  pub id : String
  pub migration_id : String
  pub level : String
  pub message : String
  pub table_name : Option String
  pub created_at : ℕ

-- What the services and the worker share: the tables, the tasks that were sent to the queue (task
-- and migration), and the tasks that were revoked.
pub record Database : Type 0 where
  pub migrations : Dict Migration
  pub logs : List MigrationLog
  pub queued : List (String × String)
  pub revoked : List String
