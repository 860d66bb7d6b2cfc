-- ===== src/Tests/Completing.antt =====
-- app/workers/migration_tasks.py: the task of the databases in memory completes.
use migrate_app_backend.Base.{ok, ◌≡◌, refl}
use migrate_app_backend.Base.Yields.{Any}
use migrate_app_backend.Base.Dict.{lookup}
use migrate_app_backend.Base.{arith, [], ◌∷◌, some, take, drop}
use migrate_app_backend.Core.Constants.{MigrationStatus}
use migrate_app_backend.Models.{Migration}
use migrate_app_backend.Schemas.Migration.{validate_settings}
use migrate_app_backend.Migration.Executor.{Results}
use migrate_app_backend.Migration.Mapper.Converts.{IsConverting}
use migrate_app_backend.Core.Constants.{database_value}
use migrate_app_backend.Providers.Registry.{get_provider}
use migrate_app_backend.Tests.Application.{file_creds, settings}
use migrate_app_backend.Services.Stored.{load_config}
use migrate_app_backend.Utils.Encryption.{get_fernet, decrypt_credentials}
use migrate_app_backend.Workers.MigrationTasks.Execute.{run_task}
use migrate_app_backend.Workers.MigrationTasks.Execute.Succeeds.{IsWorking, IsClean}
use migrate_app_backend.Workers.MigrationTasks.Execute.Outcome.{RowIs}
use migrate_app_backend.Workers.MigrationTasks.Execute.Completes.{IsReady, run_task_completes}
use migrate_app_backend.Tests.Fixtures.{python, memory, two_users, pending_migration}
use migrate_app_backend.Tests.Application.{runtime, drivers, stored}
use migrate_app_backend.Tests.Tasks.{waiting}
use migrate_app_backend.Tests.Endings.{past_end}

memory-IsWorking : IsWorking Any 2 memory
memory-IsWorking = record {
  connects = record { at = λ w i. (_, refl, tt, i) };
  disconnects = record { at = λ w i. (_, refl, tt, i) };
  schemas = λ t. record { at = λ w i. (_, refl, tt, i) };
  exists = λ t. record { at = λ w i. (_, refl, tt, i) };
  fetches = λ t o n cs. record { at = λ w i. (take n (drop o two_users), refl, past_end n o, i) };
  creates = λ t. record { at = λ w i. (_, refl, tt, i) };
  inserts = λ t rows. record { at = λ w i. (_, refl, tt, tt) };
  truncates = λ t. record { at = λ w i. (_, refl, tt, i) };
}

python-IsConverting : IsConverting python
python-IsConverting = record { int_of_float = λ x. refl; dumps = λ x. refl }

waiting-IsReady : IsReady runtime drivers stored 9 "m1" memory memory waiting
unfolding load_config validate_settings decrypt_credentials get_fernet get_provider lookup
    database_value
waiting-IsReady = record {
  row = record pending_migration {
    source_connection = "a.db";
    destination_connection = "b.db";
    tables_config = some "tables";
    settings = some "settings";
  };
  config = record {
    tables = "users" ∷ [];
    settings = settings;
    src_creds = file_creds "a.db";
    dst_creds = file_creds "b.db";
  };
  kinds = ("sqlite", "sqlite");
  found = refl;
  loads = refl;
  named = refl;
  source = refl;
  destination = refl;
}

run_task_completes_example :
    (results : Results) × ((run_task runtime drivers stored 9 "m1" waiting).0 ≡ ok results)
    × IsClean results
    × RowIs "m1"
        (λ (m : Migration). m.status ≡ MigrationStatus.completed)
        (run_task runtime drivers stored 9 "m1" waiting).1.db.migrations
run_task_completes_example =
    run_task_completes runtime drivers stored 9 "m1" Any
      (λ k. record { at = λ w i. (tt, refl, tt, tt) }) (λ w i. tt) 2 memory memory memory-IsWorking
      memory-IsWorking python-IsConverting (omega arith) waiting tt waiting-IsReady
