-- ===== src/Workers/MigrationTasks/Execute/Finishes.antt =====
-- app/workers/migration_tasks.py: a task ends, whatever its calls do.
use migrate_app_backend.Base.{
  ℕ, ◌+◌, ◌*◌, ◌≤◌, ◌<◌, String, Option, none, some, Bool, true, false, List, [], ◌∷◌, Result, ok,
  raise, out_of_fuel, Exception, str_eq, ◌≡◌, ◌≢◌, refl, ◌∙◌, arith,
}
use migrate_app_backend.Base.Dict.{lookup}
use migrate_app_backend.Base.Effect.{
  Act, pure, throw, lift, unless, message, caught, Caught, returned, raised, ◌>>=◌, ◌>>◌,
}
use migrate_app_backend.Base.Calls.{
  Terminates, Terminates-pure, Terminates-caught, Terminates-bind, bind-ne,
}
use migrate_app_backend.Schemas.Migration.{ColumnMapping, MigrationSettings}
use migrate_app_backend.Migration.Value.{Python, Row}
use migrate_app_backend.Migration.Mapper.{active_mappings}
use migrate_app_backend.Migration.Mapper.Ends.{apply_mappings_ends}
use migrate_app_backend.Migration.Planner.Errors.{build_plan-Terminates}
use migrate_app_backend.Migration.Executor.{
  MigrationExecutor, Results, log, call_log, progress, call_progress, transform, transform_by,
}
use migrate_app_backend.Migration.Executor.Finishes.{IsLive, run-Terminates}
use migrate_app_backend.Core.Constants.{MigrationStatus}
use migrate_app_backend.Services.MigrationService.{save}
use migrate_app_backend.Models.{Migration, Database}
use migrate_app_backend.Providers.{Provider}
use migrate_app_backend.Providers.Registry.{Drivers, get_provider}
use migrate_app_backend.Providers.Registry.Makes.{get_provider_ends, get_provider_made}
use migrate_app_backend.Services.Stored.{Serializers, TaskConfig, load_config}
use migrate_app_backend.Utils.Json.{Object}
use migrate_app_backend.Websockets.Payload.{completed_payload}
use migrate_app_backend.Workers.System.{
  System, Runtime, Session, in_session, send, within, in_system,
}
use migrate_app_backend.Workers.System.Sessions.{in_session_returned}
use migrate_app_backend.Workers.MigrationTasks.{begin_run, begin_found, finalise}
use migrate_app_backend.Workers.MigrationTasks.Execute.{
  report_failed, make_executor, run_executor, migrate, both, kinds_of, after_run, connected_run,
  execute_between, execute_config, execute, on_failure, after_task, run_task,
}
use migrate_app_backend.Workers.MigrationTasks.Execute.Ends.{
  IsServing, IsServed, load_config-retries, in_provider, report_failed-Terminates,
  on_progress-Terminates, on_log-Terminates, world-Terminates, session-Terminates,
  finalise-Terminates,
}

module _ {S : Type 0} where
  lift_then :
      {A B : Type 0} (r : Result A) (f : A → Act S B)
      → r ≢ out_of_fuel
      → ((a : A) → r ≡ ok a → Terminates (f a))
      → Terminates (lift r >>= f)
  lift_then r f k j = record { at = λ s. bind-ne (lift r) f s k (λ a e. (j a e).at s) }

  unless-Terminates : {m : Act S (Unit {0})} (b : Bool) → Terminates m → Terminates (unless b m)
  unless-Terminates true h = Terminates-pure tt
  unless-Terminates false h = h

module _ {P : Python} {W : Type 0} (runtime : Runtime P W) (drivers : Drivers P W)
    (stored : Serializers) (size : ℕ) (id : String) (h : IsServed runtime drivers stored size) where
  module _ (src dst : Provider P W) (hs : IsServing src size) (hd : IsServing dst size) where
    transform_by_ends :
        (self : MigrationExecutor P (System W)) (active ms : List ColumnMapping)
        (rows : List (Row P))
        → transform_by self active ms rows ≢ out_of_fuel
    unfolding transform_by
    transform_by_ends self [] ms rows = λ p. cc
    transform_by_ends self (m ∷ active) ms rows = apply_mappings_ends P h.values rows ms

    executor-IsLive :
        (settings : MigrationSettings) (total : ℕ) (timer : P.Float)
        → IsLive (make_executor runtime id src dst settings total timer) size
    unfolding make_executor log call_log progress call_progress transform
    executor-IsLive settings total timer = record {
      loops = λ t ms. record {
        fetches = λ o. world-Terminates _ (hs.fetches t o _ _);
        exhausted = λ o w batch past e. hs.exhausted t o _ _ w.world batch past e;
        inserts = λ rows. world-Terminates _ (hd.inserts t rows);
        transforms = λ rows.
            transform_by_ends (make_executor runtime id src dst settings total timer)
              (active_mappings ms) ms rows;
        logs = λ level text table. record {
          at = λ s. (on_log-Terminates runtime id h.sessions level text table).at s.world;
        };
        reports = λ n. record {
          at = λ s.
              (on_progress-Terminates runtime id h.sessions total timer t n s.total none).at
                s.world;
        };
        sleeps = λ n. world-Terminates _ (h.sleeps n);
      };
      creates = λ t. world-Terminates _ (hd.creates t);
      truncates = λ t. world-Terminates _ (hd.truncates t);
      logs = λ level text table. record {
        at = λ s. (on_log-Terminates runtime id h.sessions level text table).at s.world;
      };
    }

    migrate-Terminates :
        (fuel : ℕ) (config : TaskConfig) (timer : P.Float)
        → size * (config.settings.max_retries + 1) + config.settings.max_retries < fuel
        → Terminates (migrate runtime id fuel src dst config timer)
    unfolding migrate run_executor make_executor
    migrate-Terminates fuel config timer enough =
        Terminates-bind _ _
          (build_plan-Terminates (in_system src) (in_system dst)
            (λ t. world-Terminates _ (hd.exists t)) (λ t. world-Terminates _ (hs.schemas t))
            (λ t. world-Terminates _ (hd.schemas t)) config.tables)
          λ plan. record {
            at = λ s.
                (run-Terminates
                    (make_executor runtime id src dst config.settings plan.total_rows timer)
                    (executor-IsLive config.settings plan.total_rows timer) fuel enough plan).at
                  (record { world = s; total = 0 });
          }

  module _ (fuel : ℕ) (enough : size * 11 + 10 < fuel) where
    after_run-Terminates :
        (c : Caught Results) → Terminates (after_run runtime drivers stored fuel id c)
    unfolding after_run
    after_run-Terminates (returned r) = record {
      at = λ s.
          (Terminates-bind (in_session runtime Session.at_end (finalise id r (runtime.now s.world)))
              (λ u. send id (completed_payload id r) >> pure r)
              (session-Terminates runtime id h.sessions Session.at_end _
                (finalise-Terminates id r (runtime.now s.world)))
              λ u. record { at = λ t q. cc }).at
            s;
    }
    after_run-Terminates (raised (Exception.soft_time_limit text)) =
        Terminates-bind _ _ (report_failed-Terminates runtime id h.sessions _)
          λ u. record { at = λ t q. cc }
    after_run-Terminates (raised e) =
        Terminates-bind (report_failed runtime id (message e)) (λ u. throw e)
          (report_failed-Terminates runtime id h.sessions _) λ u. record { at = λ t q. cc }

    between-Terminates :
        (timer : P.Float) (config : TaskConfig) (src dst : Provider P W)
        → config.settings.max_retries ≤ 10
        → IsServing src size
        → IsServing dst size
        → Terminates (execute_between runtime drivers stored fuel id timer config src dst)
    unfolding execute_between connected_run
    between-Terminates timer config src dst few hs hd =
        let m = migrate runtime id fuel src dst config timer in
        let rounds : size * (config.settings.max_retries + 1) + config.settings.max_retries < fuel =
          grind arith in
        Terminates-bind (caught (within src (within dst m)))
          (after_run runtime drivers stored fuel id)
          (Terminates-caught _ (
            in_provider src (within dst m) hs
              (in_provider dst m hd (migrate-Terminates src dst hs hd fuel config timer rounds))))
          after_run-Terminates

    both_ends : (a b : Option String) → both a b ≢ out_of_fuel
    both_ends none b p = cc
    both_ends (some a) none p = cc
    both_ends (some a) (some b) p = cc

    served :
        (kind : String) (creds : Object) (p : Provider P W)
        → get_provider drivers kind creds ≡ ok p
        → IsServing p size
    served = get_provider_made drivers (λ p. IsServing p size) h.postgres h.mysql h.sqlite

    config-Terminates :
        (timer : P.Float) (config : TaskConfig)
        → config.settings.max_retries ≤ 10
        → Terminates (execute_config runtime drivers stored fuel id timer config)
    unfolding execute_config
    config-Terminates timer config few =
        lift_then (kinds_of runtime drivers stored fuel id config) _ (both_ends _ _) λ kinds e.
          lift_then (get_provider drivers kinds.0 config.src_creds) _
            (get_provider_ends drivers h.reads _ _)
            λ src made.
              lift_then (get_provider drivers kinds.1 config.dst_creds) _
                (get_provider_ends drivers h.reads _ _)
                λ dst made'.
                  between-Terminates timer config src dst few
                    (served kinds.0 config.src_creds src made)
                    (served kinds.1 config.dst_creds dst made')

    begin_ends :
        (t : ℕ) (o : Option Migration) (db : Database)
        → (begin_found (load_config stored) id t o db).0 ≢ out_of_fuel
    unfolding begin_found
    begin_ends t none db = λ p. cc
    begin_ends t (some m) db = loaded (load_config stored m) (h.loads m)
      where
        loaded :
            (r : Result TaskConfig)
            → r ≢ out_of_fuel
            → ((lift r >>= λ c.
                  (save id (record m { status = MigrationStatus.running; started_at = some t })
                    >> pure c))
                db).0
              ≢ out_of_fuel
        loaded (ok c) k = λ p. cc
        loaded (raise e) k = λ p. cc
        loaded out_of_fuel k = absurd (k refl)

    begin_few :
        (t : ℕ) (o : Option Migration) (db : Database) (c : TaskConfig)
        → (begin_found (load_config stored) id t o db).0 ≡ ok c
        → c.settings.max_retries ≤ 10
    unfolding begin_found
    begin_few t none db c e = absurd cc
    begin_few t (some m) db c e = loaded (load_config stored m) refl e
      where
        loaded :
            (r : Result TaskConfig)
            → load_config stored m ≡ r
            → ((lift r >>= λ c.
                  (save id (record m { status = MigrationStatus.running; started_at = some t })
                    >> pure c))
                db).0
              ≡ ok c
            → c.settings.max_retries ≤ 10
        loaded (ok c') same k = load_config-retries stored m c (same ∙ k)
        loaded (raise e) same k = absurd cc
        loaded out_of_fuel same k = absurd cc

    execute-Terminates : Terminates (execute runtime drivers stored fuel id)
    unfolding execute begin_run
    execute-Terminates = record {
      at = λ s.
          bind-ne
            (in_session runtime Session.at_start
              (begin_run (load_config stored) id (runtime.now s.world)))
            (execute_config runtime drivers stored fuel id (runtime.monotonic s.world)) s
            ((session-Terminates runtime id h.sessions Session.at_start
                (begin_run (load_config stored) id (runtime.now s.world))
                (record {
                  at = λ db. begin_ends (runtime.now s.world) (lookup id db.migrations) db;
                })).at
              s)
            (λ config e.
              (config-Terminates (runtime.monotonic s.world) config (
                  begin_few (runtime.now s.world) (lookup id s.db.migrations) s.db config
                    (in_session_returned runtime Session.at_start
                      (begin_run (load_config stored) id (runtime.now s.world)) s config e).0)).at
                _);
    }

    after_task-Terminates :
        (c : Caught Results) → Terminates (after_task runtime drivers stored fuel id c)
    unfolding after_task on_failure
    after_task-Terminates (returned r) = Terminates-pure r
    after_task-Terminates (raised e) =
        Terminates-bind (on_failure runtime drivers stored fuel id e) (λ u. throw e)
          (unless-Terminates (str_eq id "")
            (report_failed-Terminates runtime id h.sessions (message e)))
          λ u. record { at = λ t q. cc }

    -- If the libraries' calls, the sessions and the calls of the providers come back, with values or exceptions, and no
    -- table has a row at or after `size` (`IsServed`), then with fuel for that many rows a
    -- task ends with results or an exception, whatever its row says and whichever of its calls
    -- fail. The fuel is enough for every migration, since the retries that a row can ask for are
    -- at most 10.
    pub run_task-Terminates : Terminates (run_task runtime drivers stored fuel id)
    unfolding run_task
    run_task-Terminates =
        Terminates-bind (caught (execute runtime drivers stored fuel id))
          (after_task runtime drivers stored fuel id) (Terminates-caught _ execute-Terminates)
          after_task-Terminates
