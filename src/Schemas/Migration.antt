-- ===== src/Schemas/Migration.antt =====
-- app/schemas/migration.py: the schema of a table, the plan, and the settings of a migration.
use migrate_app_backend.Base.{
  Exception, Result, ok, raise, leb, ◌&&◌, if◌then◌else◌, ℕ, String, Option, Bool, List,
}

-- `ColumnSchema`. Lengths and precisions come from a database catalogue and are not negative.
pub record ColumnSchema : Type 0 where
  pub name : String
  pub data_type : String
  pub is_nullable : Bool
  pub is_primary_key : Bool
  pub default : Option String
  pub max_length : Option ℕ
  pub precision : Option ℕ
  pub scale : Option ℕ
  pub enum_values : Option (List String)

-- `TableSchema`
pub record TableSchema : Type 0 where
  pub name : String
  pub columns : List ColumnSchema
  pub primary_keys : List String
  pub row_count : ℕ

-- the dicts that `build_column_mappings` describes
pub record ColumnMapping : Type 0 where
  pub source_col : String
  pub dest_col : String
  pub source_type : String
  pub dest_type : String
  pub include : Bool

-- the two values of `MigrationTablePlan.status` that the planner writes
pub data TableStatus : Type 0 where
  pending skipped : TableStatus

-- `MigrationTablePlan`
pub record MigrationTablePlan : Type 0 where
  pub table_name : String
  pub source_schema : TableSchema
  pub destination_schema : Option TableSchema
  pub column_mappings : List ColumnMapping
  pub row_count : ℕ
  pub status : TableStatus

-- `MigrationPlan`
pub record MigrationPlan : Type 0 where
  pub tables : List MigrationTablePlan
  pub total_rows : ℕ
  pub warnings : List String

-- `MigrationSettings`
pub record MigrationSettings : Type 0 where
  pub include_schema : Bool
  pub include_data : Bool
  pub batch_size : ℕ
  pub truncate_destination : Bool
  pub continue_on_error : Bool
  pub max_retries : ℕ

-- `MigrationSettings(…)`, with the bounds of its fields. The text of pydantic's error is its own.
unfoldable pub validate_settings : (text : String) → MigrationSettings → Result MigrationSettings
validate_settings text s =
    if leb 100 s.batch_size && leb s.batch_size 50000 && leb s.max_retries 10
    then ok s
    else raise (Exception.value_error text)
