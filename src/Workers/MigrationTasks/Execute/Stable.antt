-- ===== src/Workers/MigrationTasks/Execute/Stable.antt =====
-- app/workers/migration_tasks.py: what a task leaves alone in the table of migrations.
use migrate_app_backend.Base.{
  ℕ, String, Option, none, some, Result, ok, raise, out_of_fuel, Exception, str_eq, ◌≡◌, ◌⊎◌, refl,
  Option-cases, inl, inr,
}
use migrate_app_backend.Base.Dict.{Dict, lookup, insert}
use migrate_app_backend.Base.Effect.{
  Act, pure, throw, lift, message, caught, Caught, returned, raised, ◌>>=◌, ◌>>◌,
}
use migrate_app_backend.Base.Calls.{Keeps, Keeps-bind, Keeps-caught, Keeps-unless}
use migrate_app_backend.Schemas.Migration.{MigrationSettings}
use migrate_app_backend.Migration.Value.{Python}
use migrate_app_backend.Migration.Planner.Quiet.{build_plan-Keeps}
use migrate_app_backend.Migration.Executor.{Results, log, progress, call_log, call_progress}
use migrate_app_backend.Migration.Executor.Quiet.{IsQuiet, run-Keeps}
use migrate_app_backend.Models.{Migration, Database}
use migrate_app_backend.Core.Constants.{MigrationStatus}
use migrate_app_backend.Services.MigrationService.{save}
use migrate_app_backend.Providers.{Provider}
use migrate_app_backend.Providers.Session.{uncaught, opened}
use migrate_app_backend.Providers.Registry.{Drivers, get_provider}
use migrate_app_backend.Services.Stored.{Serializers, TaskConfig, load_config}
use migrate_app_backend.Websockets.Payload.{completed_payload, failed_payload}
use migrate_app_backend.Workers.System.{
  System, Runtime, Session, on_world, on_db, in_session, send, within, in_system,
}
use migrate_app_backend.Workers.MigrationTasks.{
  mark_failed, fail_found, begin_run, begin_found, record_progress, progress_found, finalise,
  finalise_found,
}
use migrate_app_backend.Workers.MigrationTasks.Execute.{
  now, report_failed, on_progress, elapsed, add_log, on_log, make_executor, run_executor, migrate,
  after_run, connected_run, execute_between, kinds_of, execute_config, execute, on_failure,
  after_task, run_task,
}

-- A view of the table that a new version of the row of `id` does not change.
pub record IsStable {X : Type 0} (id : String) (view : Dict Migration → X) : Type 0 where
  pub at :
      (d : Dict Migration) (m m' : Migration)
      → lookup id d ≡ some m
      → view (insert id m' d) ≡ view d

module _ {X : Type 0} (id : String) (view : Dict Migration → X) (h : IsStable id view) where
  begin_found-stable :
      {C : Type 0} (load : Migration → Result C) (t : ℕ) (m : Migration) (db : Database)
      (r : Result C)
      → lookup id db.migrations ≡ some m
      → view
          ((lift r >>= λ c.
              (save id (record m { status = MigrationStatus.running; started_at = some t })
                >> pure c))
            db).1.migrations
        ≡ view db.migrations
  begin_found-stable load t m db (ok c) e = h.at _ _ _ e
  begin_found-stable load t m db (raise x) e = refl
  begin_found-stable load t m db out_of_fuel e = refl

module _ {W X : Type 0} (id : String) (view : Dict Migration → X) (h : IsStable id view) where
  abbrev pub seen : System W → X
  seen s = view s.db.migrations

  world-Keeps : {A : Type 0} (m : Act W A) → Keeps seen (on_world m)
  world-Keeps m = record { at = λ s. refl }

  found-Keeps :
      {A : Type 0} (f : Option Migration → Act Database A)
      → ((m : Migration) (db : Database)
          → lookup id db.migrations ≡ some m
          → view (f (some m) db).1.migrations ≡ view db.migrations)
      → ((db : Database) → view (f none db).1.migrations ≡ view db.migrations)
      → Keeps seen (on_db (λ db. f (lookup id db.migrations) db))
  found-Keeps f k j = record { at = λ s. go s.db (Option-cases (lookup id s.db.migrations)) }
    where
      go :
          (db : Database)
          → (lookup id db.migrations ≡ none)
            ⊎ ((m : Migration) × (lookup id db.migrations ≡ some m))
          → view (f (lookup id db.migrations) db).1.migrations ≡ view db.migrations
      go db (inl e) = rw e (j db)
      go db (inr (m, e)) = rw e (k m db e)

  mark_failed-Keeps : (error : String) (t : ℕ) → Keeps seen (on_db (mark_failed id error t))
  unfolding mark_failed fail_found
  mark_failed-Keeps error t =
      found-Keeps (fail_found id error t) (λ m db e. h.at _ _ _ e) (λ db. refl)

  progress-Keeps : (table : String) (n : ℕ) → Keeps seen (on_db (record_progress id table n))
  unfolding record_progress progress_found
  progress-Keeps table n =
      found-Keeps (progress_found id table n) (λ m db e. h.at _ _ _ e) (λ db. refl)

  finalise-Keeps : (r : Results) (t : ℕ) → Keeps seen (on_db (finalise id r t))
  unfolding finalise finalise_found
  finalise-Keeps r t = found-Keeps (finalise_found id r t) (λ m db e. h.at _ _ _ e) (λ db. refl)

  begin-Keeps :
      {C : Type 0} (load : Migration → Result C) (t : ℕ) → Keeps seen (on_db (begin_run load id t))
  unfolding begin_run begin_found
  begin-Keeps load t =
      found-Keeps (begin_found load id t)
        (λ m db e. begin_found-stable id view h load t m db (load m) e) (λ db. refl)

  lift-Keeps :
      {A B : Type 0} (r : Result A) {f : A → Act (System W) B}
      → ((a : A) → Keeps seen (f a))
      → Keeps seen (lift r >>= f)
  lift-Keeps r {f = f} k = Keeps-bind (lift r) f seen (record { at = λ s. refl }) k

  uncaught-Keeps : {A : Type 0} (c : Caught A) → Keeps seen (uncaught c)
  uncaught-Keeps (returned a) = record { at = λ s. refl }
  uncaught-Keeps (raised e) = record { at = λ s. refl }

  within-Keeps :
      {P : Python} {A : Type 0} (p : Provider P W) (m : Act (System W) A)
      → Keeps seen m
      → Keeps seen (within p m)
  unfolding opened
  within-Keeps p m k = Keeps-bind _ _ seen (world-Keeps p.connect) λ u.
      Keeps-bind _ _ seen (Keeps-caught seen m k)
        λ c. Keeps-bind _ _ seen (world-Keeps p.disconnect) λ v. uncaught-Keeps c

  module _ {P : Python} (runtime : Runtime P W) where
    session-Keeps :
        {A : Type 0} (k : Session) (m : Act Database A)
        → Keeps seen (on_db m)
        → Keeps seen (in_session runtime k m)
    session-Keeps k m h =
        Keeps-bind (on_world (runtime.session k)) (λ u. on_db m) seen (world-Keeps _) (λ u. h)

    report_failed-Keeps : (error : String) → Keeps seen (report_failed runtime id error)
    unfolding report_failed
    report_failed-Keeps error =
        Keeps-bind (now runtime id)
          (λ t.
            in_session runtime Session.at_failure (mark_failed id error t)
            >> send id (failed_payload id error))
          seen (record { at = λ s. refl })
          λ t.
            Keeps-bind (in_session runtime Session.at_failure (mark_failed id error t))
              (λ u. send id (failed_payload id error)) seen
              (session-Keeps Session.at_failure _ (mark_failed-Keeps error t))
              λ u. record { at = λ s. refl }

    on_progress-Keeps :
        (total : ℕ) (timer : P.Float) (table : String) (n k : ℕ) (e : Option String)
        → Keeps seen (on_progress runtime id total timer table n k e)
    unfolding on_progress elapsed
    on_progress-Keeps total timer table n k e = record {
      at = λ s.
          (Keeps-bind (in_session runtime Session.at_progress (record_progress id table k)) _ seen
              (session-Keeps Session.at_progress _ (progress-Keeps table k))
              λ u. record { at = λ s. refl }).at
            s;
    }

    on_log-Keeps :
        (level text : String) (table : Option String)
        → Keeps seen (on_log runtime id level text table)
    unfolding on_log
    on_log-Keeps level text table = record {
      at = λ s.
          (Keeps-bind (in_session runtime Session.at_log (add_log runtime id level text table _ _))
              _ seen (session-Keeps Session.at_log _ (record { at = λ t. refl }))
              λ u. record { at = λ t. refl }).at
            (record s { world = (runtime.new_uuid s.world).1 });
    }

    executor-IsQuiet :
        (src dst : Provider P W) (settings : MigrationSettings) (total : ℕ) (timer : P.Float)
        → IsQuiet seen (make_executor runtime id src dst settings total timer)
    unfolding make_executor log call_log progress call_progress
    executor-IsQuiet src dst settings total timer = record {
      fetches = λ t o n cs. world-Keeps _;
      creates = λ t. world-Keeps _;
      truncates = λ t. world-Keeps _;
      inserts = λ t rows. world-Keeps _;
      logs = λ level text t. record { at = λ s. (on_log-Keeps level text t).at s.world };
      reports =
          λ t n. record { at = λ s. (on_progress-Keeps total timer t n s.total none).at s.world };
      sleeps = λ n. world-Keeps _;
    }

    migrate-Keeps :
        (fuel : ℕ) (src dst : Provider P W) (config : TaskConfig) (timer : P.Float)
        → Keeps seen (migrate runtime id fuel src dst config timer)
    unfolding migrate run_executor
    migrate-Keeps fuel src dst config timer =
        Keeps-bind _ _ seen
          (build_plan-Keeps seen (in_system src) (in_system dst)
            (record {
              source_schema = λ t. world-Keeps _;
              destination_schema = λ t. world-Keeps _;
              exists = λ t. world-Keeps _;
            })
            config.tables)
          λ plan. record {
            at = λ s.
                (run-Keeps seen
                    (make_executor runtime id src dst config.settings plan.total_rows timer)
                    (executor-IsQuiet src dst config.settings plan.total_rows timer) fuel plan).at
                  (record { world = s; total = 0 });
          }

    module _ (drivers : Drivers P W) (stored : Serializers) (fuel : ℕ) where
      after_run-Keeps :
          (c : Caught Results) → Keeps seen (after_run runtime drivers stored fuel id c)
      unfolding after_run
      after_run-Keeps (returned r) =
          Keeps-bind (now runtime id) _ seen (record { at = λ s. refl })
            λ t.
              Keeps-bind (in_session runtime Session.at_end (finalise id r t))
                (λ u. send id (completed_payload id r) >> pure r) seen
                (session-Keeps Session.at_end _ (finalise-Keeps r t)) λ u. record { at = λ s. refl }
      after_run-Keeps (raised (Exception.soft_time_limit text)) =
          Keeps-bind _ _ seen (report_failed-Keeps _) λ u. record { at = λ s. refl }
      after_run-Keeps (raised e) =
          Keeps-bind _ _ seen (report_failed-Keeps _) λ u. record { at = λ s. refl }

      between-Keeps :
          (timer : P.Float) (config : TaskConfig) (src dst : Provider P W)
          → Keeps seen (execute_between runtime drivers stored fuel id timer config src dst)
      unfolding execute_between connected_run
      between-Keeps timer config src dst =
          Keeps-bind
            (caught (within src (within dst (migrate runtime id fuel src dst config timer))))
            (after_run runtime drivers stored fuel id) seen
            (Keeps-caught seen
              (within src (within dst (migrate runtime id fuel src dst config timer)))
              (within-Keeps src (within dst (migrate runtime id fuel src dst config timer)) (
                within-Keeps dst (migrate runtime id fuel src dst config timer)
                  (migrate-Keeps fuel src dst config timer))))
            after_run-Keeps

      config-Keeps :
          (timer : P.Float) (config : TaskConfig)
          → Keeps seen (execute_config runtime drivers stored fuel id timer config)
      unfolding execute_config
      config-Keeps timer config =
          lift-Keeps (kinds_of runtime drivers stored fuel id config) λ kinds.
            lift-Keeps (get_provider drivers kinds.0 config.src_creds) λ src.
              lift-Keeps (get_provider drivers kinds.1 config.dst_creds)
                λ dst. between-Keeps timer config src dst

      pub execute-Keeps : Keeps seen (execute runtime drivers stored fuel id)
      unfolding execute
      execute-Keeps = record {
        at = λ s.
            (Keeps-bind
                (in_session runtime Session.at_start
                  (begin_run (load_config stored) id (runtime.now s.world)))
                (execute_config runtime drivers stored fuel id (runtime.monotonic s.world)) seen
                (session-Keeps Session.at_start _
                  (begin-Keeps (load_config stored) (runtime.now s.world)))
                (config-Keeps (runtime.monotonic s.world))).at
              s;
      }

      after_task-Keeps :
          (c : Caught Results) → Keeps seen (after_task runtime drivers stored fuel id c)
      unfolding after_task on_failure
      after_task-Keeps (returned r) = record { at = λ s. refl }
      after_task-Keeps (raised e) =
          Keeps-bind (on_failure runtime drivers stored fuel id e) (λ u. throw e) seen
            (Keeps-unless seen (str_eq id "") (report_failed runtime id (message e))
              (report_failed-Keeps (message e)))
            λ u. record { at = λ s. refl }

      pub run_task-Keeps : Keeps seen (run_task runtime drivers stored fuel id)
      unfolding run_task
      run_task-Keeps =
          Keeps-bind (caught (execute runtime drivers stored fuel id))
            (after_task runtime drivers stored fuel id) seen
            (Keeps-caught seen (execute runtime drivers stored fuel id) execute-Keeps)
            after_task-Keeps
