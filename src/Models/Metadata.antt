-- ===== src/Models/Metadata.antt =====
-- app/models: the columns that the classes declare, and `init_db` of app/core/database.py.
use migrate_app_backend.Base.{String, Option, none, some, Bool, true, false, List, [], ◌∷◌}
use migrate_app_backend.Base.Int.{pos}
use migrate_app_backend.Base.Effect.{Act}
use migrate_app_backend.Utils.Json.{Scalar}
use migrate_app_backend.Ddl.{
  ColumnType, string, text, integer, big_integer, date_time, SqlFunction, now, Column, Index, Table,
  Operations,
}

-- `mapped_column(type, primary_key=…, nullable=…, default=…, index=…)`
unfoldable pub mapped_column :
    String → ColumnType → (primary_key nullable : Bool) → Option Scalar → (index : Bool) → Column
mapped_column name type primary_key nullable default index = record {
  name = name;
  type = type;
  primary_key = primary_key;
  nullable = nullable;
  default = default;
  onupdate = none;
  server_default = none;
  index = index;
}

-- `mapped_column(DateTime(timezone=True), server_default=func.now(), onupdate=…, nullable=False)`
unfoldable pub stamp_column : String → Option SqlFunction → Column
stamp_column name onupdate = record {
  name = name;
  type = date_time true;
  primary_key = false;
  nullable = false;
  default = none;
  onupdate = onupdate;
  server_default = some now;
  index = false;
}

-- `Connection`
unfoldable pub connection_table : Table
unfolding mapped_column stamp_column
connection_table = record {
  name = "connections";
  columns =
      mapped_column "id" (string 36) true false none false
      ∷ mapped_column "database_type" (string 32) false false none false
      ∷ mapped_column "connection_method" (string 16) false false none false
      ∷ mapped_column "connection_data" text false false none false
      ∷ mapped_column "label" (string 255) false true none false
      ∷ stamp_column "created_at" none
      ∷ stamp_column "updated_at" (some now)
      ∷ [];
  table_args = [];
}

abbrev zero_default : Option Scalar
zero_default = some (Scalar.number (pos 0))

-- `Migration`
unfoldable pub migration_table : Table
unfolding mapped_column stamp_column
migration_table = record {
  name = "migrations";
  columns =
      mapped_column "id" (string 36) true false none false
      ∷ mapped_column "status" (string 32) false false (some (Scalar.text "pending")) false
      ∷ mapped_column "source_connection" text false false none false
      ∷ mapped_column "destination_connection" text false false none false
      ∷ mapped_column "tables_config" text false true none false
      ∷ mapped_column "migration_plan" text false true none false
      ∷ mapped_column "settings" text false true none false
      ∷ mapped_column "total_tables" integer false false zero_default false
      ∷ mapped_column "completed_tables" integer false false zero_default false
      ∷ mapped_column "total_rows" big_integer false false zero_default false
      ∷ mapped_column "processed_rows" big_integer false false zero_default false
      ∷ mapped_column "current_table" (string 255) false true none false
      ∷ stamp_column "created_at" none
      ∷ mapped_column "started_at" (date_time true) false true none false
      ∷ mapped_column "completed_at" (date_time true) false true none false
      ∷ mapped_column "celery_task_id" (string 255) false true none false
      ∷ mapped_column "error_message" text false true none false
      ∷ [];
  table_args = [];
}

-- `__table_args__` of `MigrationLog`
abbrev pub log_args : List Index
log_args =
    record {
      name = "ix_migration_logs_migration_created";
      table = "migration_logs";
      columns = "migration_id" ∷ "created_at" ∷ [];
    }
    ∷ []

-- `MigrationLog`
unfoldable pub migration_log_table : Table
unfolding mapped_column stamp_column
migration_log_table = record {
  name = "migration_logs";
  columns =
      mapped_column "id" (string 36) true false none false
      ∷ mapped_column "migration_id" (string 36) false false none true
      ∷ mapped_column "level" (string 16) false false (some (Scalar.text "INFO")) false
      ∷ mapped_column "message" text false false none false
      ∷ mapped_column "table_name" (string 255) false true none false
      ∷ stamp_column "created_at" none
      ∷ [];
  table_args = log_args;
}

-- the tables of `Base.metadata`, by their names
abbrev pub metadata : List Table
metadata = connection_table ∷ migration_log_table ∷ migration_table ∷ []

unfoldable pub init_db : {S : Type 0} → Operations S → Act S (Unit {0})
init_db op = op.create_all metadata
