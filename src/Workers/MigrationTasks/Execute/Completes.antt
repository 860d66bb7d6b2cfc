-- ===== src/Workers/MigrationTasks/Execute/Completes.antt =====
-- app/workers/migration_tasks.py: a task whose calls succeed completes its migration.
use mathlib.Core.Path.{subst}
use migrate_app_backend.Base.{ℕ, ◌<◌, String, some, true, ok, ◌≡◌, refl, sym, ap, ◌∙◌, is_some}
use migrate_app_backend.Base.Dict.{lookup}
use migrate_app_backend.Base.Effect.{Act, lift, returned, caught_result, continue, ◌>>=◌}
use migrate_app_backend.Base.Yields.{Yields, Any, Yields-pure, Yields-bind, Yields-try}
use migrate_app_backend.Core.Constants.{MigrationStatus}
use migrate_app_backend.Models.{Migration}
use migrate_app_backend.Migration.Value.{Python}
use migrate_app_backend.Migration.Mapper.Converts.{IsConverting}
use migrate_app_backend.Migration.Executor.{Results}
use migrate_app_backend.Providers.{Provider}
use migrate_app_backend.Providers.Registry.{Drivers, get_provider}
use migrate_app_backend.Services.Stored.{Serializers, TaskConfig, load_config}
use migrate_app_backend.Websockets.Payload.{completed_payload}
use migrate_app_backend.Workers.System.{System, Runtime, Session, in_session, send}
use migrate_app_backend.Workers.MigrationTasks.{begin_run, begin_found, finalise}
use migrate_app_backend.Workers.MigrationTasks.Execute.{
  kinds_of, after_run, connected_run, execute_between, execute_config, execute, after_task,
  run_task,
}
use migrate_app_backend.Workers.MigrationTasks.Execute.Outcome.{
  RowIs, status_after, run_task-IsFinal,
}
use migrate_app_backend.Workers.MigrationTasks.Execute.Succeeds.{
  IsWorking, IsSound, IsClean, session-Yields, send-Yields, finalise-Yields, insert-is_some,
  within-Yields, migrate-Yields,
}

module _ {P : Python} {W : Type 0} (runtime : Runtime P W) (drivers : Drivers P W)
    (stored : Serializers) (fuel : ℕ) (id : String) where
  -- The migration has a row, whose configuration can be loaded, and which names these providers.
  pub record IsReady (src dst : Provider P W) (s : System W) : Type 0 where
    pub row : Migration
    pub config : TaskConfig
    pub kinds : String × String
    pub found : lookup id s.db.migrations ≡ some row
    pub loads : load_config stored row ≡ ok config
    pub named : kinds_of runtime drivers stored fuel id config ≡ ok kinds
    pub source : get_provider drivers kinds.0 config.src_creds ≡ ok src
    pub destination : get_provider drivers kinds.1 config.dst_creds ≡ ok dst

  module _ (I : W → Type 0) where
    -- The call returns results without a failed table, and the invariant and the row are there.
    Done : Act (System W) Results → System W → Type 0
    Done m s = (r : Results) × ((m s).0 ≡ ok r) × IsClean r × IsSound runtime id I (m s).1

    then_Done :
        {A : Type 0} (m : Act (System W) A) (f : A → Act (System W) Results) (s : System W) (a : A)
        → (m s).0 ≡ ok a
        → Done (f a) (m s).1
        → Done (m >>= f) s
    unfolding Done
    then_Done m f s a e d =
        subst
          (λ r.
            (b : Results) × ((continue r f (m s).1).0 ≡ ok b)
            × IsClean b
            × IsSound runtime id I (continue r f (m s).1).1)
          (sym e) d

    module _ (sessions : (k : Session) → Yields I Any (runtime.session k))
        (names : (w : W) → I w → I (runtime.new_uuid w).1) (size : ℕ) (src dst : Provider P W)
        (hs : IsWorking I size src) (hd : IsWorking I size dst) (converts : IsConverting P)
        (enough : size < fuel) where
      after_run-Yields :
          (r : Results)
          → IsClean r
          → Yields
              (IsSound runtime id I)
              IsClean
              (after_run runtime drivers stored fuel id (returned r))
      unfolding after_run
      after_run-Yields r q = record {
        at = λ s i.
            (Yields-bind (IsSound runtime id I) Any IsClean
                (in_session runtime Session.at_end (finalise id r (runtime.now s.world))) _
                (session-Yields runtime id I Any Session.at_end _ (sessions Session.at_end)
                  (finalise-Yields runtime id I r (runtime.now s.world)))
                (λ u p.
                  Yields-bind (IsSound runtime id I) Any IsClean (send id (completed_payload id r))
                    _ (send-Yields runtime id I (completed_payload id r))
                    (λ v n. Yields-pure (IsSound runtime id I) IsClean r q))).at
              s i;
      }

      execute_between-Yields :
          (timer : P.Float) (config : TaskConfig)
          → Yields
              (IsSound runtime id I)
              IsClean
              (execute_between runtime drivers stored fuel id timer config src dst)
      unfolding execute_between connected_run
      execute_between-Yields timer config =
          Yields-try (IsSound runtime id I) IsClean IsClean
            (connected_run runtime drivers stored fuel id src dst config timer) _
            (within-Yields runtime id I IsClean size src _ hs (
              within-Yields runtime id I IsClean size dst _ hd (
                migrate-Yields runtime id I sessions names size src dst hs hd converts fuel enough
                  config timer)))
            after_run-Yields

      module _ (s : System W) (i : I s.world) (ready : IsReady src dst s) where
        loaded :
            (t : ℕ)
            → ((begin_run (load_config stored) id t s.db).0 ≡ ok ready.config)
              × (is_some (lookup id (begin_run (load_config stored) id t s.db).1.migrations) ≡ true)
        unfolding begin_run begin_found
        loaded t = rw ready.found (rw ready.loads (refl, insert-is_some runtime id I _ _))

        begun :
            (t : ℕ)
            → let start =
                in_session runtime Session.at_start (begin_run (load_config stored) id t) in
              ((start s).0 ≡ ok ready.config) × IsSound runtime id I (start s).1
        begun t =
            let (u, e, q, j) = (sessions Session.at_start).at s.world i in
            let (e', there) = loaded t in rw e (e', (j, there))

        execute-Done : Done (execute runtime drivers stored fuel id) s
        unfolding execute execute_config Done
        execute-Done =
            then_Done
              (in_session runtime Session.at_start
                (begin_run (load_config stored) id (runtime.now s.world)))
              _ s ready.config (begun (runtime.now s.world)).0
              (then_Done (lift (kinds_of runtime drivers stored fuel id ready.config)) _ _
                ready.kinds ready.named
                (then_Done (lift (get_provider drivers ready.kinds.0 ready.config.src_creds)) _ _
                  src ready.source
                  (then_Done (lift (get_provider drivers ready.kinds.1 ready.config.dst_creds)) _ _
                    dst ready.destination
                    ((execute_between-Yields (runtime.monotonic s.world) ready.config).at _
                      (begun (runtime.now s.world)).1))))

        run_task-Done : Done (run_task runtime drivers stored fuel id) s
        unfolding run_task after_task Done
        run_task-Done =
            let (r, e, q, j) = execute-Done in
            subst
              (λ x.
                (b : Results) × ((continue (caught_result x)
                    (after_task runtime drivers stored fuel id)
                    (execute runtime drivers stored fuel id s).1).0
                  ≡ ok b)
                × IsClean b
                × IsSound runtime id I
                    (continue (caught_result x) (after_task runtime drivers stored fuel id)
                      (execute runtime drivers stored fuel id s).1).1)
              (sym e) (r, refl, q, j)

        -- If the migration's row can be loaded, the calls of the two databases that it names and the
        -- task's sessions succeed in the states for which an invariant holds and keep it, as does
        -- taking a UUID, no table has a row at or after `size`, and every float and document can be
        -- converted, then a task that starts in such a state with more fuel than `size` returns
        -- results without a failed table, and afterwards the row is `completed`.
        pub run_task_completes :
            (results : Results) × ((run_task runtime drivers stored fuel id s).0 ≡ ok results)
            × IsClean results
            × RowIs id
                (λ (m : Migration). m.status ≡ MigrationStatus.completed)
                (run_task runtime drivers stored fuel id s).1.db.migrations
        unfolding Done
        run_task_completes =
            let (r, e, q, j) = run_task-Done in
            let (m, there, final) =
              run_task-IsFinal runtime drivers stored fuel id s _ r
                (λ k. (e k, (run_task runtime drivers stored fuel id s).1)) in
            (r, e, q, (m, there, final.status ∙ ap status_after q))
