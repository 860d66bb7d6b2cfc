-- ===== src/Workers/MigrationTasks/Execute.antt =====
-- app/workers/migration_tasks.py: the task, from its row to its last broadcast.
pub mod Completes
pub mod Stable
pub mod Succeeds
pub mod Through
pub mod Outcome
pub mod Announces
pub mod Ends
pub mod Finishes
pub mod Settles
use migrate_app_backend.Base.{
  ℕ, String, Option, none, some, Bool, List, [], ◌∷◌, ◌++◌, Result, ok, raise, out_of_fuel,
  Exception, str_eq, not,
}
use migrate_app_backend.Base.Int.{pos}
use migrate_app_backend.Base.Dict.{lookup}
use migrate_app_backend.Base.Effect.{
  Act, pure, throw, lift, gets, unless, message, caught, Caught, returned, raised, ◌>>=◌, ◌>>◌,
}
use migrate_app_backend.Schemas.Migration.{MigrationSettings, MigrationPlan}
use migrate_app_backend.Migration.Value.{Python}
use migrate_app_backend.Migration.Planner.{build_plan}
use migrate_app_backend.Migration.Executor.{MigrationExecutor, State, Results, run}
use migrate_app_backend.Models.{Migration, MigrationLog, Database}
use migrate_app_backend.Providers.{Provider}
use migrate_app_backend.Providers.Registry.{Drivers, given, get_provider}
use migrate_app_backend.Services.Stored.{Serializers, TaskConfig, load_config}
use migrate_app_backend.Utils.Helpers.{calculate_progress, calculate_speed, estimate_time_remaining}
use migrate_app_backend.Websockets.Payload.{
  progress_payload, log_payload, completed_payload, failed_payload,
}
use migrate_app_backend.Workers.System.{
  System, Runtime, Session, on_world, in_session, send, within, in_system,
}
use migrate_app_backend.Workers.MigrationTasks.{mark_failed, begin_run, record_progress, finalise}

module _ {P : Python} {W : Type 0} (runtime : Runtime P W) (migration_id : String) where
  abbrev pub now : Act (System W) ℕ
  now = gets (λ s. runtime.now s.world)

  -- `_mark_failed`
  unfoldable pub report_failed : String → Act (System W) (Unit {0})
  report_failed error = do
    t ← now
    in_session runtime Session.at_failure (mark_failed migration_id error t)
    send migration_id (failed_payload migration_id error)

  module _ (total_rows : ℕ) (timer : P.Float) where
    elapsed : Act (System W) P.Float
    elapsed = gets (λ s. runtime.floats.sub (runtime.monotonic s.world) timer)

    -- `on_progress`
    unfoldable pub on_progress : String → ℕ → ℕ → Option String → Act (System W) (Unit {0})
    unfolding elapsed
    on_progress table_name rows_in_table total_processed error = do
      seconds ← elapsed
      in_session runtime Session.at_progress
          (record_progress migration_id table_name total_processed)
      send migration_id (
          progress_payload migration_id "running"
            (calculate_progress runtime.floats total_processed total_rows) (some table_name)
            total_processed total_rows (calculate_speed runtime.floats total_processed seconds)
            (estimate_time_remaining runtime.floats total_processed total_rows seconds))

  abbrev add_log : String → String → Option String → String → ℕ → Act Database (Unit {0})
  add_log level text table_name id t db = (
    ok tt,
    record db {
      logs =
          db.logs
          ++ record {
            id = id;
            migration_id = migration_id;
            level = level;
            message = text;
            table_name = table_name;
            created_at = t;
          }
            ∷ [];
    },
  )

  -- `on_log`
  unfoldable pub on_log : String → String → Option String → Act (System W) (Unit {0})
  on_log level text table_name = do
    id ← on_world (λ w. let (i, w') = runtime.new_uuid w in (ok i, w'))
    t ← now
    in_session runtime Session.at_log (add_log level text table_name id t)
    send migration_id (log_payload migration_id level text table_name)

  -- the executor that the task makes
  unfoldable pub make_executor :
      Provider P W → Provider P W → MigrationSettings → ℕ → P.Float → MigrationExecutor P (System W)
  make_executor src dst settings total_rows timer = record {
    source = in_system src;
    destination = in_system dst;
    settings = settings;
    on_progress = some (on_progress total_rows timer);
    on_log = some on_log;
    sleep = λ n. on_world (runtime.sleep n);
  }

  -- `executor.run()`, with the executor's own count of rows
  unfoldable pub run_executor :
      ℕ → MigrationExecutor P (System W) → MigrationPlan → Act (System W) Results
  run_executor fuel executor plan s =
      let (r, t) = run executor fuel plan (record { world = s; total = 0 }) in (r, t.world)

  -- the body of the `async with` block
  unfoldable pub migrate :
      ℕ → Provider P W → Provider P W → TaskConfig → P.Float → Act (System W) Results
  unfolding make_executor run_executor
  migrate fuel src dst config timer = do
    plan ← build_plan (in_system src) (in_system dst) config.tables
    run_executor fuel (make_executor src dst config.settings plan.total_rows timer) plan

-- `if not src_type or not dst_type`
abbrev pub both : Option String → Option String → Result (String × String)
both (some src_type) (some dst_type) = ok (src_type, dst_type)
both _ _ = raise (
    Exception.value_error "database_type missing from stored credentials — cannot start migration.")

module _ {P : Python} {W : Type 0} (runtime : Runtime P W) (drivers : Drivers P W)
    (stored : Serializers) (fuel : ℕ) (migration_id : String) where
  -- the two `except` branches, and what follows a run that returned
  unfoldable pub after_run : Caught Results → Act (System W) Results
  unfolding report_failed
  after_run (raised (Exception.soft_time_limit text)) = do
    report_failed runtime migration_id "Task exceeded time limit and was terminated."
    throw (Exception.soft_time_limit text)
  after_run (raised exc) = do report_failed runtime migration_id (message exc); throw exc
  after_run (returned exec_result) = do
    t ← now runtime migration_id
    in_session runtime Session.at_end (finalise migration_id exec_result t)
    send migration_id (completed_payload migration_id exec_result)
    pure exec_result

  -- the `try` block
  unfoldable pub connected_run :
      Provider P W → Provider P W → TaskConfig → P.Float → Act (System W) Results
  connected_run src dst config timer =
      within src (within dst (migrate runtime migration_id fuel src dst config timer))

  -- the `try` statement, and what follows it
  unfoldable pub execute_between :
      P.Float → TaskConfig → Provider P W → Provider P W → Act (System W) Results
  unfolding connected_run after_run
  execute_between timer config src dst = caught (connected_run src dst config timer) >>= after_run

  abbrev pub kinds_of : TaskConfig → Result (String × String)
  kinds_of config =
      both (given (lookup "database_type" config.src_creds))
        (given (lookup "database_type" config.dst_creds))

  -- `_execute` once the row is read
  unfoldable pub execute_config : P.Float → TaskConfig → Act (System W) Results
  unfolding execute_between
  execute_config timer config = do
    kinds ← lift (kinds_of config)
    src ← lift (get_provider drivers kinds.0 config.src_creds)
    dst ← lift (get_provider drivers kinds.1 config.dst_creds)
    execute_between timer config src dst

  -- `_execute`
  unfoldable pub execute : Act (System W) Results
  unfolding execute_config
  execute = do
    timer ← gets (λ s. runtime.monotonic s.world)
    t ← now runtime migration_id
    config ← in_session runtime Session.at_start (begin_run (load_config stored) migration_id t)
    execute_config timer config

  -- `MigrationTask.on_failure`
  unfoldable pub on_failure : Exception → Act (System W) (Unit {0})
  unfolding report_failed
  on_failure exc =
      unless (str_eq migration_id "") (report_failed runtime migration_id (message exc))

  -- what Celery does with the outcome of `run_migration_task`
  unfoldable pub after_task : Caught Results → Act (System W) Results
  unfolding on_failure
  after_task (returned results) = pure results
  after_task (raised exc) = do on_failure exc; throw exc

  -- a task: `run_migration_task`, and `on_failure` if it raises
  unfoldable pub run_task : Act (System W) Results
  unfolding execute after_task
  run_task = caught execute >>= after_task
