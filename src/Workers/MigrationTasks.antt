-- ===== src/Workers/MigrationTasks.antt =====
-- app/workers/migration_tasks.py: what the task writes to its migration's row.
pub mod Lifecycle
pub mod Execute
use Prim.Native.String
use migrate_app_backend.Base.{
  ℕ, zero, suc, String, Option, none, some, Bool, true, false, List, [], ◌∷◌, Exception, Result, ok,
  raise, length,
}
use migrate_app_backend.Base.Text.{◌<>◌, join}
use migrate_app_backend.Base.Dict.{lookup, insert}
use migrate_app_backend.Base.Effect.{Act, pure, throw, lift, ◌>>=◌, ◌>>◌}
use migrate_app_backend.Core.Constants.{MigrationStatus}
use migrate_app_backend.Models.{Migration, Database}
use migrate_app_backend.Migration.Executor.{Results}
use migrate_app_backend.Services.MigrationService.{save}

-- `text[:n]`
unfoldable pub first_chars : ℕ → String → String
first_chars zero s = ""
first_chars (suc n) String.[] = ""
first_chars (suc n) (String.◌∷◌ c s) = String.◌∷◌ c (first_chars n s)

unfoldable pub failed : Migration → String → ℕ → Migration
unfolding first_chars
failed m error now = record m {
  status = MigrationStatus.failed;
  error_message = some (first_chars 2000 error);
  completed_at = some now;
}

unfoldable pub fail_found : String → String → ℕ → Option Migration → Act Database (Unit {0})
unfolding failed
fail_found id error now none = pure tt
fail_found id error now (some m) = save id (failed m error now)

-- `_mark_failed`, without the event that it broadcasts
unfoldable pub mark_failed : String → String → ℕ → Act Database (Unit {0})
unfolding fail_found
mark_failed id error now db = fail_found id error now (lookup id db.migrations) db

module _ {C : Type 0} (load : Migration → Result C) where
  -- `load` parses the row's settings and decrypts its credentials.
  unfoldable pub begin_found : String → ℕ → Option Migration → Act Database C
  begin_found id now none = throw (Exception.value_error ("Migration " <> id <> " not found in DB"))
  begin_found id now (some m) = do
    config ← lift (load m)
    save id (record m { status = MigrationStatus.running; started_at = some now })
    pure config

  -- the first session of `_execute`: the row is read, its configuration loaded, and it is marked
  -- as running
  unfoldable pub begin_run : String → ℕ → Act Database C
  unfolding begin_found
  begin_run id now db = begin_found id now (lookup id db.migrations) db

no_result_found : Exception
no_result_found = Exception.other_error "No row was found when one was required"

unfoldable pub progress_found : String → String → ℕ → Option Migration → Act Database (Unit {0})
unfolding no_result_found
progress_found id table_name total_processed none = throw no_result_found
progress_found id table_name total_processed (some m) =
    save id (record m { processed_rows = total_processed; current_table = some table_name })

-- the session of `on_progress`; `scalar_one` raises where there is no row
unfoldable pub record_progress : String → String → ℕ → Act Database (Unit {0})
unfolding progress_found
record_progress id table_name total_processed db =
    progress_found id table_name total_processed (lookup id db.migrations) db

-- the row after a run that failed for some tables, or for none
unfoldable pub finalised : Migration → Results → ℕ → List String → Migration
finalised m results now [] = record m {
  status = MigrationStatus.completed;
  completed_tables = length results.completed_tables;
  processed_rows = results.total_rows_migrated;
  completed_at = some now;
  current_table = none;
}
finalised m results now (t ∷ ts) = record m {
  status = MigrationStatus.failed;
  completed_tables = length results.completed_tables;
  processed_rows = results.total_rows_migrated;
  completed_at = some now;
  current_table = none;
  error_message = some ("Tables failed: " <> join ", " (t ∷ ts));
}

unfoldable pub finalise_found : String → Results → ℕ → Option Migration → Act Database (Unit {0})
unfolding no_result_found finalised
finalise_found id results now none = throw no_result_found
finalise_found id results now (some m) = save id (finalised m results now results.failed_tables)

-- the last session of `_execute`
unfoldable pub finalise : String → Results → ℕ → Act Database (Unit {0})
unfolding finalise_found
finalise id results now db = finalise_found id results now (lookup id db.migrations) db
