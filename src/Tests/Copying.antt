-- ===== src/Tests/Copying.antt =====
-- app/migration/executor.py over the databases in memory.
use migrate_app_backend.Base.{
  ◌≡◌, refl, sym, ◌∙◌, ℕ, zero, suc, ◌+◌, ◌≤◌, ◌<◌, ◌≢◌, List, [], ◌∷◌, some, none, true, false, ok,
  out_of_fuel, arith, take, drop,
}
use migrate_app_backend.Base.Effect.{ok-injective}
use migrate_app_backend.Base.Calls.{Terminates, Terminates-pure}
use migrate_app_backend.Base.Yields.{Any}
use migrate_app_backend.Migration.Value.{Row}
use migrate_app_backend.Schemas.Migration.{
  ColumnMapping, MigrationPlan, MigrationTablePlan, TableStatus,
}
use migrate_app_backend.Migration.Planner.{pending_table, skipped_table}
use migrate_app_backend.Base.Text.{upper, before_paren}
use migrate_app_backend.Base.Dict.{lookup, insert}
use migrate_app_backend.Schemas.Columns.{columns_by_name}
use migrate_app_backend.Migration.Executor.{
  columns_of, call_log, call_progress, after_fetch, after_store, retry_fetch, store_batch, fetch,
  insert_attempts, after_insert, run_tables, run_table, after_table, log_skip, migrate_table,
  ensure_table, after_create, after_ensure, clear_table, copy_table, State, copy_loop,
  insert_with_retry, transform, transform_by, fetched_columns, log, progress, run, Results,
  empty_results,
}
use migrate_app_backend.Migration.Mapper.{
  active_mappings, build_column_mappings, column_mapping, apply_mappings, map_rows, map_row, coerce,
  coerce_to, coerce_by, coerce_text, coerce_boolean, coerce_integer,
}
use migrate_app_backend.Migration.Executor.Ends.{IsResponsive, copy_loop-Terminates}
use migrate_app_backend.Migration.Executor.Retry.{CountsInserts, insert_with_retry_attempts}
use migrate_app_backend.Migration.Executor.Store.{IsTabular}
use migrate_app_backend.Migration.Executor.Copy.{Copied, copy_loop-Copied}
use migrate_app_backend.Migration.Executor.Completes.{IsReliable}
use migrate_app_backend.Migration.Executor.Succeeds.{IsComplete, IsRunnable, run_completes}
use migrate_app_backend.Migration.Executor.Visits.{Visits}
use migrate_app_backend.Migration.Executor.Run.{run-Visits}
use migrate_app_backend.Tests.Fixtures.{python, users, two_users, World, empty_world, executor}

abbrev start : State World
start = record { world = empty_world; total = 0 }

drop_nil : {A : Type 0} (n : ℕ) → drop {A = A} n [] ≡ []
drop_nil zero = refl
drop_nil (suc n) = refl

take-drop_past : (n : ℕ) → 2 ≤ n → take 1 (drop n two_users) ≡ []
take-drop_past zero h = absurd (omega arith)
take-drop_past (suc zero) h = absurd (omega arith)
take-drop_past (suc (suc n)) h = rw (drop_nil {A = Row python} n) refl

-- all columns of `users`
abbrev all_columns : List ColumnMapping
all_columns = build_column_mappings users (some users)

executor-IsTabular : IsTabular executor "users" all_columns (λ (w : World). w.rows) two_users
unfolding log progress call_log call_progress
executor-IsTabular = record {
  positive = omega arith;
  fetched = λ offset w batch e. sym (ok-injective e);
  fetch_keeps = λ offset. record { at = λ s. refl };
  inserted = λ batch w e. refl;
  refused = λ batch w e. cc;
  logs = λ level text t. record { at = λ s. refl };
  reports = λ n. record { at = λ s. refl };
  sleeps = λ n. record { at = λ s. refl };
}

copy_loop-Copied_example :
    Copied executor "users" all_columns
      (λ (w : World). w.rows)
      two_users
      0
      ([], 0)
      (copy_loop executor "users" all_columns 5 0 0 0 start)
copy_loop-Copied_example =
    copy_loop-Copied executor "users" all_columns (λ (w : World). w.rows) two_users
      executor-IsTabular 5 0 0 0 start

copied_test : (copy_loop executor "users" all_columns 5 0 0 0 start).1.world.rows ≡ two_users
unfolding copy_loop after_fetch after_store retry_fetch store_batch fetch transform transform_by
    fetched_columns columns_of insert_with_retry insert_attempts after_insert log call_log progress
    call_progress apply_mappings map_rows map_row active_mappings build_column_mappings
    column_mapping lookup insert columns_by_name coerce coerce_to coerce_by coerce_text
    coerce_boolean coerce_integer upper before_paren
copied_test = refl

transform_ends : (rows : List (Row python)) → transform executor [] rows ≢ out_of_fuel
unfolding transform transform_by active_mappings
transform_ends rows e = cc

executor-IsResponsive : IsResponsive executor "users" [] 2
unfolding log progress call_log call_progress
executor-IsResponsive = record {
  fetches = λ offset. Terminates-pure _;
  exhausted = λ offset w batch past e. sym (ok-injective e) ∙ take-drop_past offset past;
  inserts = λ rows. record { at = λ s e. cc };
  transforms = transform_ends;
  logs = λ level text t. record { at = λ s e. cc };
  reports = λ n. record { at = λ s e. cc };
  sleeps = λ n. record { at = λ s e. cc };
}

copy_loop-Terminates_example : Terminates (copy_loop executor "users" [] 6 0 0 0)
copy_loop-Terminates_example =
    copy_loop-Terminates executor "users" [] executor-IsResponsive 6 0 0 0 (omega arith)

executor-CountsInserts : CountsInserts executor "users" (λ (w : World). w.tries) two_users
unfolding log call_log
executor-CountsInserts = record {
  inserts = λ w. refl;
  logs = λ level text t. record { at = λ s. refl };
  sleeps = λ n. record { at = λ s. refl };
}

insert_with_retry_attempts_example :
    let (r, t) = insert_with_retry executor "users" two_users start in
    (t.world.tries ≤ 0 + (1 + 1))
    × (r ≡ ok true → 0 < t.world.tries)
    × (r ≡ ok false → t.world.tries ≡ 0 + (1 + 1))
insert_with_retry_attempts_example =
    insert_with_retry_attempts executor "users" (λ (w : World). w.tries) executor-CountsInserts
      start

abbrev two_tables : MigrationPlan
two_tables = record {
  tables = pending_table "users" users (some users) ∷ skipped_table "orders" users none ∷ [];
  total_rows = 2;
  warnings = [];
}

abbrev report : Results
report = record {
  completed_tables = "users" ∷ [];
  skipped_tables = "orders" ∷ [];
  failed_tables = [];
  total_rows_migrated = 2;
}

abbrev finish : State World
finish = record { world = record { rows = two_users; tries = 2 }; total = 2 }

run_test : run executor 5 two_tables start ≡ (ok report, finish)
unfolding run run_tables run_table after_table log_skip migrate_table ensure_table after_create
    after_ensure clear_table copy_table pending_table skipped_table copy_loop after_fetch
    after_store retry_fetch store_batch fetch transform transform_by fetched_columns columns_of
    insert_with_retry insert_attempts after_insert log call_log progress call_progress
    apply_mappings map_rows map_row active_mappings build_column_mappings column_mapping lookup
    insert columns_by_name coerce coerce_to coerce_by coerce_text coerce_boolean coerce_integer
    upper before_paren
run_test = refl

run-Visits_example :
    Visits false two_tables.tables empty_results report
    × (report.total_rows_migrated ≡ finish.total)
run-Visits_example = run-Visits executor 5 two_tables report start finish run_test

executor-IsReliable : IsReliable executor Any "users" [] 2
unfolding progress call_progress transform transform_by active_mappings
executor-IsReliable = record {
  fetches = λ offset. record {
    at = λ w i. (take 1 (drop offset two_users), refl, take-drop_past offset, i);
  };
  inserts = λ rows. record { at = λ w i. (_, refl, tt, tt) };
  transforms = λ rows. refl;
  reports = λ rows total. record { at = λ w i. (tt, refl, tt, i) };
}

abbrev users_plan : List MigrationTablePlan
users_plan =
    record (skipped_table "users" users none) { status = TableStatus.pending }
    ∷ skipped_table "orders" users none
    ∷ []

abbrev plan_of_users : MigrationPlan
plan_of_users = record { tables = users_plan; total_rows = 2; warnings = [] }

users-IsRunnable : IsRunnable executor Any 2 plan_of_users.tables
unfolding call_log skipped_table
users-IsRunnable = record {
  loops = (executor-IsReliable, (tt, tt));
  creates = λ t. record { at = λ w i. (_, refl, tt, i) };
  truncates = λ t. record { at = λ w i. (_, refl, tt, i) };
  logging = record { logs = λ level text t. record { at = λ w i. (_, refl, tt, i) } };
}

run_completes_example :
    (results : Results) × ((run executor 3 plan_of_users start).0 ≡ ok results)
    × IsComplete plan_of_users results
    × Any (run executor 3 plan_of_users start).1.world
run_completes_example =
    run_completes executor Any 2 3 plan_of_users start users-IsRunnable (omega arith) tt
