-- ===== src/Workers/MigrationTasks/Execute/Through.antt =====
-- app/workers/migration_tasks.py: what holds of a task's state when it returns results, from what
-- holds after its last session.
use mathlib.Core.Path.{subst}
use migrate_app_backend.Base.{ℕ, String, ok, Result, Exception, ◌≡◌, refl, ap, ◌∙◌}
use migrate_app_backend.Base.Effect.{
  ok-injective, throw, lift, message, caught, Caught, returned, raised,
}
use migrate_app_backend.Base.Calls.{bind_elim, caught-returned}
use migrate_app_backend.Migration.Value.{Python}
use migrate_app_backend.Migration.Executor.{Results}
use migrate_app_backend.Services.Stored.{Serializers, TaskConfig, load_config}
use migrate_app_backend.Providers.Registry.{Drivers, get_provider}
use migrate_app_backend.Workers.System.{System, Runtime, Session, in_session}
use migrate_app_backend.Workers.MigrationTasks.{begin_run}
use migrate_app_backend.Workers.MigrationTasks.Execute.{
  report_failed, after_run, connected_run, kinds_of, execute, execute_between, execute_config,
  on_failure, after_task, run_task,
}

module _ {P : Python} {W : Type 0} (runtime : Runtime P W) (drivers : Drivers P W)
    (stored : Serializers) (fuel : ℕ) (id : String) (Q : Results → System W → Type 0) where
  -- what holds of a call that returned results
  abbrev pub Returned : Result Results × System W → Type 0
  Returned p = (r : Results) → p.0 ≡ ok r → Q r p.1

  module _
      (k : (x : Results) (s : System W)
        → Returned (after_run runtime drivers stored fuel id (returned x) s)) where
    after_run-Returned :
        (c : Caught Results) (s : System W)
        → Returned (after_run runtime drivers stored fuel id c s)
    unfolding after_run
    after_run-Returned (returned x) s = k x s
    after_run-Returned (raised (Exception.soft_time_limit text)) s =
        bind_elim Returned (report_failed runtime id "Task exceeded time limit and was terminated.")
          (λ u. throw (Exception.soft_time_limit text)) s (λ u e r h. cc) (λ r n m x' h. cc)
    after_run-Returned (raised e) s =
        bind_elim Returned (report_failed runtime id (message e)) (λ u. throw e) s (λ u e r h. cc)
          (λ r n m x' h. cc)

    execute_config-Returned :
        (timer : P.Float) (config : TaskConfig) (s : System W)
        → Returned (execute_config runtime drivers stored fuel id timer config s)
    unfolding execute_config execute_between
    execute_config-Returned timer config s =
        bind_elim Returned (lift (kinds_of runtime drivers stored fuel id config)) _ s
          (λ kinds e.
            bind_elim Returned (lift (get_provider drivers kinds.0 config.src_creds)) _ s
              (λ src e.
                bind_elim Returned (lift (get_provider drivers kinds.1 config.dst_creds)) _ s
                  (λ dst e.
                    bind_elim Returned
                      (caught (connected_run runtime drivers stored fuel id src dst config timer))
                      (after_run runtime drivers stored fuel id) s (λ c e. after_run-Returned c _)
                      (λ r n m x' h. cc))
                  (λ r n m x' h. cc))
              (λ r n m x' h. cc))
          (λ r n m x' h. cc)

    execute-Returned : (s : System W) → Returned (execute runtime drivers stored fuel id s)
    unfolding execute
    execute-Returned s =
        bind_elim Returned
          (in_session runtime Session.at_start
            (begin_run (load_config stored) id (runtime.now s.world)))
          (execute_config runtime drivers stored fuel id (runtime.monotonic s.world)) s
          (λ config e. execute_config-Returned (runtime.monotonic s.world) config _)
          (λ r n m x' h. cc)

    pub run_task-Returned : (s : System W) → Returned (run_task runtime drivers stored fuel id s)
    unfolding run_task after_task
    run_task-Returned s =
        bind_elim Returned (caught (execute runtime drivers stored fuel id))
          (after_task runtime drivers stored fuel id) s
          (λ c e.
            after_task-Returned c _
              (λ x same. execute-Returned s x (caught-returned _ x (e ∙ ap ok same))))
          (λ r n m x' h. cc)
      where
        after_task-Returned :
            (c : Caught Results) (s : System W)
            → ((x : Results) → c ≡ returned x → Q x s)
            → Returned (after_task runtime drivers stored fuel id c s)
        after_task-Returned (returned x) s k r h = subst (λ y. Q y s) (ok-injective h) (k x refl)
        after_task-Returned (raised x) s k r h =
            bind_elim Returned (on_failure runtime drivers stored fuel id x) (λ u. throw x) s
              (λ u e r h. cc) (λ r n m x' h. cc) r h
