-- ===== src/Alembic.antt =====
-- alembic/versions/0001_initial_schema.py: the migration of the application's own database.
pub mod Steps
pub mod RoundTrip
pub mod Agrees
use migrate_app_backend.Base.{String, Option, none, some, Bool, true, false, List, [], ◌∷◌}
use migrate_app_backend.Base.Int.{pos}
use migrate_app_backend.Base.Effect.{Act, ◌>>=◌, ◌>>◌}
use migrate_app_backend.Utils.Json.{Scalar}
use migrate_app_backend.Ddl.{
  ColumnType, string, text, integer, big_integer, date_time, now, Column, Index, Table, Operations,
}

-- `sa.Column(name, type, nullable=…)`
unfoldable pub column : String → ColumnType → Bool → Column
column name type nullable = record {
  name = name;
  type = type;
  primary_key = false;
  nullable = nullable;
  default = none;
  onupdate = none;
  server_default = none;
  index = false;
}

-- `sa.Column("id", sa.String(36), primary_key=True)`
abbrev pub id_column : Column
id_column = record {
  name = "id";
  type = string 36;
  primary_key = true;
  nullable = false;
  default = none;
  onupdate = none;
  server_default = none;
  index = false;
}

-- a column with `default=value`, that may not be null
unfoldable pub defaulted : String → ColumnType → Scalar → Column
defaulted name type value = record {
  name = name;
  type = type;
  primary_key = false;
  nullable = false;
  default = some value;
  onupdate = none;
  server_default = none;
  index = false;
}

-- a time with `server_default=sa.func.now()`
unfoldable pub stamped : String → Column
stamped name = record {
  name = name;
  type = date_time true;
  primary_key = false;
  nullable = false;
  default = none;
  onupdate = none;
  server_default = some now;
  index = false;
}

abbrev pub indexed : Column → Column
indexed c = record {
  name = c.name;
  type = c.type;
  primary_key = c.primary_key;
  nullable = c.nullable;
  default = c.default;
  onupdate = c.onupdate;
  server_default = c.server_default;
  index = true;
}

abbrev pub connections : Table
unfolding column stamped
connections = record {
  name = "connections";
  columns =
      id_column
      ∷ column "database_type" (string 32) false
      ∷ column "connection_method" (string 16) false
      ∷ column "connection_data" text false
      ∷ column "label" (string 255) true
      ∷ stamped "created_at"
      ∷ stamped "updated_at"
      ∷ [];
  table_args = [];
}

abbrev pub migrations : Table
unfolding column defaulted stamped
migrations = record {
  name = "migrations";
  columns =
      id_column
      ∷ defaulted "status" (string 32) (Scalar.text "pending")
      ∷ column "source_connection" text false
      ∷ column "destination_connection" text false
      ∷ column "tables_config" text true
      ∷ column "migration_plan" text true
      ∷ column "settings" text true
      ∷ defaulted "total_tables" integer (Scalar.number (pos 0))
      ∷ defaulted "completed_tables" integer (Scalar.number (pos 0))
      ∷ defaulted "total_rows" big_integer (Scalar.number (pos 0))
      ∷ defaulted "processed_rows" big_integer (Scalar.number (pos 0))
      ∷ column "current_table" (string 255) true
      ∷ stamped "created_at"
      ∷ column "started_at" (date_time true) true
      ∷ column "completed_at" (date_time true) true
      ∷ column "celery_task_id" (string 255) true
      ∷ column "error_message" text true
      ∷ [];
  table_args = [];
}

abbrev pub migration_logs : Table
unfolding column defaulted stamped
migration_logs = record {
  name = "migration_logs";
  columns =
      id_column
      ∷ indexed (column "migration_id" (string 36) false)
      ∷ defaulted "level" (string 16) (Scalar.text "INFO")
      ∷ column "message" text false
      ∷ column "table_name" (string 255) true
      ∷ stamped "created_at"
      ∷ [];
  table_args = [];
}

abbrev pub status_index : Index
status_index = record {
  name = "ix_migrations_status";
  table = "migrations";
  columns = "status" ∷ [];
}

abbrev pub created_index : Index
created_index = record {
  name = "ix_migration_logs_migration_created";
  table = "migration_logs";
  columns = "migration_id" ∷ "created_at" ∷ [];
}

module _ {S : Type 0} (op : Operations S) where
  unfoldable pub upgrade : Act S (Unit {0})
  upgrade = do
    op.create_table connections
    op.create_table migrations
    op.create_index status_index
    op.create_table migration_logs
    op.create_index created_index

  unfoldable pub downgrade : Act S (Unit {0})
  downgrade = do
    op.drop_index "ix_migration_logs_migration_created" "migration_logs"
    op.drop_table "migration_logs"
    op.drop_index "ix_migrations_status" "migrations"
    op.drop_table "migrations"
    op.drop_table "connections"
