-- ===== src/Migration/Planner.antt =====
-- app/migration/planner.py. Its log lines go to the process's output and are left out.
pub mod Plan
pub mod Errors
pub mod Quiet
pub mod Succeeds
use migrate_app_backend.Base.{
  ℕ, ◌+◌, String, Option, none, some, Bool, true, false, List, [], ◌∷◌, ◌++◌, Exception, Result, ok,
  raise, out_of_fuel,
}
use migrate_app_backend.Base.Text.{◌<>◌}
use migrate_app_backend.Base.Effect.{
  Act, pure, lift, caught, Caught, returned, raised, message, ◌>>=◌,
}
use migrate_app_backend.Schemas.Migration
use migrate_app_backend.Schemas.Migration.{TableSchema, MigrationTablePlan, MigrationPlan}
use migrate_app_backend.Migration.Value.{Python}
use migrate_app_backend.Migration.Validator.{validate_schema_compatibility}
use migrate_app_backend.Migration.Mapper.{build_column_mappings}
use migrate_app_backend.Providers.{Provider}

unfoldable pub unread_source : String → Exception → String
unread_source table_name exc =
    "Could not read schema for table '" <> table_name <> "': " <> message exc

unfoldable pub unread_destination : String → Exception → String
unread_destination table_name exc =
    "Could not read destination schema for '" <> table_name <> "': " <> message exc

unfoldable pub fatal : String → Exception → String
fatal table_name exc = "FATAL for table '" <> table_name <> "': " <> message exc

abbrev pub add_warnings : List String → MigrationPlan → MigrationPlan
add_warnings ws plan = record plan { warnings = plan.warnings ++ ws }

abbrev pub add_table : MigrationTablePlan → ℕ → MigrationPlan → MigrationPlan
add_table t rows plan = record plan {
  tables = plan.tables ++ t ∷ [];
  total_rows = plan.total_rows + rows;
}

module _ (table_name : String) (src_schema : TableSchema) (dest_schema : Option TableSchema) where
  -- the plan of a table that passed validation
  unfoldable pub pending_table : MigrationTablePlan
  pending_table = record {
    table_name = table_name;
    source_schema = src_schema;
    destination_schema = dest_schema;
    column_mappings = build_column_mappings src_schema dest_schema;
    row_count = src_schema.row_count;
    status = Migration.TableStatus.pending;
  }

  -- the plan of a table whose schemas are incompatible
  unfoldable pub skipped_table : MigrationTablePlan
  skipped_table = record {
    table_name = table_name;
    source_schema = src_schema;
    destination_schema = dest_schema;
    column_mappings = [];
    row_count = src_schema.row_count;
    status = Migration.TableStatus.skipped;
  }

  -- `except SchemaCompatibilityError`: any other exception goes on
  unfoldable pub after_validation : Result (List String) → MigrationPlan → Result MigrationPlan
  unfolding pending_table skipped_table
  after_validation (ok ws) plan =
      ok (add_table pending_table src_schema.row_count (add_warnings ws plan))
  after_validation (raise (Exception.schema_incompatible m)) plan = ok (
      add_table skipped_table 0
        (add_warnings (fatal table_name (Exception.schema_incompatible m) ∷ []) plan))
  after_validation (raise e) plan = raise e
  after_validation out_of_fuel plan = out_of_fuel

module _ {P : Python} {W : Type 0} (source destination : Provider P W) where
  unfoldable pub keep_schema :
      String → Caught TableSchema → Act W (Option TableSchema × List String)
  keep_schema table_name (returned schema) = pure (some schema, [])
  keep_schema table_name (raised exc) = pure (none, unread_destination table_name exc ∷ [])

  -- `if dest_exists:`
  unfoldable pub read_known : String → Bool → Act W (Option TableSchema × List String)
  unfolding keep_schema
  read_known table_name false = pure (none, [])
  read_known table_name true =
      caught (destination.get_table_schema table_name) >>= keep_schema table_name

  -- the destination's schema, and the warnings of reading it
  unfoldable pub read_destination : String → Act W (Option TableSchema × List String)
  unfolding read_known
  read_destination table_name = destination.table_exists table_name >>= read_known table_name

  -- validation of a table whose source schema was read, with what is known of its destination
  unfoldable pub validate_table :
      String → MigrationPlan → TableSchema → Option TableSchema × List String → Act W MigrationPlan
  validate_table table_name plan src_schema found = lift (
      after_validation table_name src_schema found.0
        (validate_schema_compatibility src_schema found.0) (add_warnings found.1 plan))

  -- what follows the reading of the source's schema
  unfoldable pub plan_read : String → MigrationPlan → Caught TableSchema → Act W MigrationPlan
  unfolding validate_table
  plan_read table_name plan (raised exc) =
      pure (add_warnings (unread_source table_name exc ∷ []) plan)
  plan_read table_name plan (returned src_schema) =
      read_destination table_name >>= validate_table table_name plan src_schema

  -- one round of the loop of `build_plan`
  unfoldable pub plan_table : String → MigrationPlan → Act W MigrationPlan
  unfolding plan_read
  plan_table table_name plan =
      caught (source.get_table_schema table_name) >>= plan_read table_name plan

  unfoldable pub plan_tables : List String → MigrationPlan → Act W MigrationPlan
  plan_tables [] plan = pure plan
  plan_tables (table_name ∷ rest) plan = do
    plan' ← plan_table table_name plan
    plan_tables rest plan'

  -- `MigrationPlanner.build_plan`
  unfoldable pub build_plan : List String → Act W MigrationPlan
  build_plan table_names =
      plan_tables table_names (record { tables = []; total_rows = 0; warnings = [] })
