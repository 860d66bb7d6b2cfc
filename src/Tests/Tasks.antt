-- ===== src/Tests/Tasks.antt =====
-- app/services/migration_service.py and app/workers/migration_tasks.py, from a request to the end of
-- its task.
use migrate_app_backend.Migration.Mapper.{
  active_mappings, apply_mappings, build_column_mappings, coerce, coerce_to, map_row,
}
use migrate_app_backend.Workers.MigrationTasks.{begin_run, finalise, mark_failed, record_progress}
use migrate_app_backend.Base.{
  String, some, true, false, [], ◌∷◌, ok, raise, Exception, ◌≡◌, ◌≢◌, refl, is_some, is_ok,
}
use migrate_app_backend.Base.{eq_iff}
use migrate_app_backend.Base.Dict.{lookup, insert}
use migrate_app_backend.Models.{Migration}
use migrate_app_backend.Schemas.Migration.{validate_settings}
use migrate_app_backend.Migration.Executor.{
  Results, copy_loop, insert_attempts, insert_with_retry, log, migrate_table, progress, run,
  store_batch, transform,
}
use migrate_app_backend.Services.Credentials.{creds_to_dict}
use migrate_app_backend.Services.Stored.{load_config}
use migrate_app_backend.Services.MigrationService.Create.{create_migration}
use migrate_app_backend.Services.MigrationService.Create.Stores.{
  Loads, Holds, create_migration-load_config,
}
use migrate_app_backend.Services.MigrationService.Create.Atomic.{create_migration_atomic}
use migrate_app_backend.Utils.Encryption.{decrypt_credentials, encrypt_credentials, get_fernet}
use migrate_app_backend.Providers.Session.{opened}
use migrate_app_backend.Providers.Registry.{get_provider}
use migrate_app_backend.Core.Constants.{database_value}
use migrate_app_backend.Migration.Planner.{
  read_destination, plan_table, plan_tables, build_plan, after_validation,
}
use migrate_app_backend.Base.Effect.{throw}
use migrate_app_backend.Providers.Registry.{Drivers}
use migrate_app_backend.Workers.System.{System}
use migrate_app_backend.Workers.MigrationTasks.Execute.{migrate, on_log, on_progress, run_task}
use migrate_app_backend.Workers.MigrationTasks.Execute.Announces.{Announced, run_task-Announced}
use migrate_app_backend.Workers.MigrationTasks.Execute.Outcome.{
  IsFinal, IsFailed, RowIs, run_task-IsFinal, run_task-IsFailed, run_task-others,
}
use migrate_app_backend.Migration.Validator.{
  validate_schema_compatibility, check_source_columns, check_source_column, family,
  check_dest_columns, check_dest_column,
}
use migrate_app_backend.Base.Text.{before_paren, upper}
use migrate_app_backend.Schemas.Columns.{columns_by_name}
use migrate_app_backend.Tests.Fixtures.{pending_migration, python, World, memory}
use migrate_app_backend.Tests.Application.{
  stored, request, runtime, drivers, broken_drivers, start_state,
}

abbrev created : System World
created = (create_migration runtime drivers stored (1, 2) request start_state).1

create_test : (create_migration runtime drivers stored (1, 2) request start_state).0 ≡ ok "m1"
unfolding create_migration get_provider database_value creds_to_dict lookup build_plan
    validate_schema_compatibility columns_by_name encrypt_credentials opened plan_tables plan_table
    read_destination after_validation check_source_columns check_source_column insert family
    before_paren upper check_dest_columns check_dest_column get_fernet
create_test = refl

stored_Loads : Loads stored request
unfolding creds_to_dict lookup database_value
stored_Loads = record {
  tables = refl;
  tables_text = λ p. cc;
  settings = refl;
  settings_text = λ p. cc;
  source = record { decrypt-encrypt = λ k seed t. refl; loads-dumps = refl };
  destination = record { decrypt-encrypt = λ k seed t. refl; loads-dumps = refl };
}

settings_valid : validate_settings stored.validation_error request.settings ≡ ok request.settings
unfolding validate_settings
settings_valid = refl

create_migration-load_config_example :
    (m : Migration) × (lookup "m1" created.db.migrations ≡ some m) × Holds stored request m
create_migration-load_config_example =
    create_migration-load_config runtime drivers stored (1, 2) request stored_Loads settings_valid
      start_state created "m1" (λ i. (create_test i, created))

unreachable_test :
    is_ok (create_migration runtime broken_drivers stored (1, 2) request start_state).0 ≡ false
unfolding create_migration get_provider database_value creds_to_dict lookup
unreachable_test = refl

create_migration_atomic_example :
    (create_migration runtime broken_drivers stored (1, 2) request start_state).1.db
    ≡ start_state.db
create_migration_atomic_example =
    create_migration_atomic runtime broken_drivers stored (1, 2) request start_state
      unreachable_test

-- a row as `create_migration` stores it
abbrev pub waiting : System World
waiting = record start_state {
  db = record start_state.db {
    migrations =
        (
          "m1",
          record pending_migration {
            source_connection = "a.db";
            destination_connection = "b.db";
            tables_config = some "tables";
            settings = some "settings";
          },
        )
        ∷ [];
  };
}

abbrev ended : System World
ended = (run_task runtime drivers stored 9 "m1" waiting).1

abbrev results : Results
results = record {
  completed_tables = "users" ∷ [];
  failed_tables = [];
  skipped_tables = [];
  total_rows_migrated = 2;
}

run_test : (run_task runtime drivers stored 9 "m1" waiting).0 ≡ ok results
unfolding run_task begin_run lookup load_config validate_settings decrypt_credentials get_fernet
    get_provider database_value opened migrate build_plan plan_tables plan_table read_destination
    after_validation validate_schema_compatibility check_source_columns check_source_column
    columns_by_name insert family before_paren upper check_dest_columns check_dest_column run
    migrate_table log on_log copy_loop store_batch transform active_mappings build_column_mappings
    apply_mappings map_row coerce coerce_to insert_with_retry insert_attempts progress on_progress
    record_progress finalise
run_test = refl

run_task-IsFinal_example : RowIs "m1" (IsFinal results) ended.db.migrations
run_task-IsFinal_example =
    run_task-IsFinal runtime drivers stored 9 "m1" waiting ended results (λ i. (run_test i, ended))

-- the same migration, where the configuration's database cannot be connected
abbrev no_text : Exception
no_text = Exception.other_error "no such file"

abbrev closed_drivers : Drivers python World
closed_drivers = record drivers { sqlite = λ path. record memory { connect = throw no_text } }

abbrev failed_state : System World
failed_state = (run_task runtime closed_drivers stored 9 "m1" waiting).1

failed_test : (run_task runtime closed_drivers stored 9 "m1" waiting).0 ≡ raise no_text
unfolding run_task begin_run lookup load_config validate_settings decrypt_credentials get_fernet
    get_provider database_value opened mark_failed insert
failed_test = refl

there_test : is_some (lookup "m1" waiting.db.migrations) ≡ true
unfolding lookup
there_test = refl

run_task-IsFailed_example : RowIs "m1" (IsFailed no_text) failed_state.db.migrations
run_task-IsFailed_example =
    run_task-IsFailed runtime closed_drivers stored 9 "m1" waiting failed_state no_text (λ w. refl)
      (λ p. cc) there_test (λ i. (failed_test i, failed_state))

abbrev other : String
other = "m2"

abbrev task_id : String
task_id = "m1"

other_id : other ≢ task_id
other_id p = let e : false ≡ true = (eq_iff other task_id).1 p in cc

run_task-others_example : lookup "m2" ended.db.migrations ≡ lookup "m2" waiting.db.migrations
run_task-others_example = run_task-others runtime drivers stored 9 "m1" "m2" other_id waiting

run_task-Announced_example :
    let ended_with = run_task runtime closed_drivers stored 9 "m1" waiting in
    Announced "m1" ended_with.0 ended_with.1.sent
run_task-Announced_example =
    run_task-Announced runtime closed_drivers stored 9 "m1" (λ w. refl) (λ p. cc) waiting
