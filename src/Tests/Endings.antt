-- ===== src/Tests/Endings.antt =====
-- app/workers/migration_tasks.py: the task of the databases in memory ends.
use migrate_app_backend.Base.{
  ℕ, zero, suc, ◌≤◌, [], out_of_fuel, ◌≡◌, ◌≢◌, refl, sym, ◌∙◌, arith, take, drop,
}
use migrate_app_backend.Base.Effect.{ok-injective}
use migrate_app_backend.Base.Calls.{Terminates}
use migrate_app_backend.Models.{Migration}
use migrate_app_backend.Migration.Value.{Row}
use migrate_app_backend.Schemas.Migration.{validate_settings}
use migrate_app_backend.Services.Stored.{load_config}
use migrate_app_backend.Utils.Encryption.{get_fernet, decrypt_credentials}
use migrate_app_backend.Workers.MigrationTasks.Execute.{run_task}
use migrate_app_backend.Workers.MigrationTasks.Execute.Ends.{IsServing, IsServed}
use migrate_app_backend.Workers.MigrationTasks.Execute.Finishes.{run_task-Terminates}
use migrate_app_backend.Tests.Fixtures.{python, World, memory, two_users, database}
use migrate_app_backend.Base.{is_some, true}
use migrate_app_backend.Base.Dict.{lookup}
use migrate_app_backend.Workers.System.{System}
use migrate_app_backend.Workers.MigrationTasks.Execute.Outcome.{RowIs}
use migrate_app_backend.Workers.MigrationTasks.Execute.Settles.{IsSettled, run_task-IsSettled}
use migrate_app_backend.Tests.Application.{start_state, runtime, drivers, stored}

take_nil : {A : Type 0} (n : ℕ) → take {A = A} n [] ≡ []
take_nil zero = refl
take_nil (suc n) = refl

drop_nil : {A : Type 0} (n : ℕ) → drop {A = A} n [] ≡ []
drop_nil zero = refl
drop_nil (suc n) = refl

pub past_end : (limit offset : ℕ) → 2 ≤ offset → take limit (drop offset two_users) ≡ []
past_end limit zero h = absurd (omega arith)
past_end limit (suc zero) h = absurd (omega arith)
past_end limit (suc (suc n)) h = rw (drop_nil {A = Row python} n) (take_nil {A = Row python} limit)

memory-IsServing : IsServing memory 2
memory-IsServing = record {
  connects = record { at = λ w p. cc };
  disconnects = record { at = λ w p. cc };
  schemas = λ t. record { at = λ w p. cc };
  fetches = λ t o n cs. record { at = λ w p. cc };
  exhausted = λ t o n cs w batch past e. sym (ok-injective e) ∙ past_end n o past;
  creates = λ t. record { at = λ w p. cc };
  inserts = λ t rows. record { at = λ w p. cc };
  truncates = λ t. record { at = λ w p. cc };
  exists = λ t. record { at = λ w p. cc };
}

load_config_ends : (m : Migration) → load_config stored m ≢ out_of_fuel
unfolding load_config validate_settings decrypt_credentials get_fernet
load_config_ends m p = cc

served : IsServed runtime drivers stored 2
served = record {
  values = record { int_of_float = λ x p. cc; dumps = λ x p. cc };
  sleeps = λ n. record { at = λ w p. cc };
  sessions = λ k. record { at = λ w p. cc };
  loads = load_config_ends;
  reads = record { urlparse = λ t p. cc; int_of_text = λ t p. cc };
  postgres = λ dsn. memory-IsServing;
  mysql = λ params. memory-IsServing;
  sqlite = λ path. memory-IsServing;
}

run_task-Terminates_example : Terminates (run_task runtime drivers stored 33 "m1")
run_task-Terminates_example =
    run_task-Terminates runtime drivers stored 2 "m1" served 33 (omega arith)

abbrev one_row : System World
one_row = record start_state { db = database }

there_test : is_some (lookup "m1" one_row.db.migrations) ≡ true
unfolding lookup
there_test = refl

run_task-IsSettled_example :
    RowIs "m1" IsSettled (run_task runtime drivers stored 33 "m1" one_row).1.db.migrations
run_task-IsSettled_example =
    run_task-IsSettled runtime drivers stored 2 "m1" served 33 (omega arith) (λ w. refl) (λ p. cc)
      one_row there_test
