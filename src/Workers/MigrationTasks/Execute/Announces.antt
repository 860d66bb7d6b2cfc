-- ===== src/Workers/MigrationTasks/Execute/Announces.antt =====
-- app/workers/migration_tasks.py: the last event that a task broadcasts.
use migrate_app_backend.Base.{
  ℕ, String, Option, none, some, false, List, [], ◌∷◌, ◌++◌, Result, ok, raise, out_of_fuel,
  Exception, str_eq, ◌≡◌, ◌≢◌, refl, ap, arith, eq_iff,
}
use migrate_app_backend.Base.Dict.{lookup}
use migrate_app_backend.Base.Effect.{
  ok-injective, pure, throw, message, Caught, returned, raised, ◌>>=◌, ◌>>◌,
}
use migrate_app_backend.Base.Calls.{bind_elim, caught_elim}
use migrate_app_backend.Workers.MigrationTasks.Execute.Outcome.{MarksFailed, raise-injective}
use migrate_app_backend.Migration.Value.{Python}
use migrate_app_backend.Migration.Executor.{Results}
use migrate_app_backend.Models.{Migration, Database}
use migrate_app_backend.Services.Stored.{Serializers}
use migrate_app_backend.Providers.Registry.{Drivers}
use migrate_app_backend.Utils.Json.{Object}
use migrate_app_backend.Workers.System.{System, Runtime, Session, in_session, send}
use migrate_app_backend.Websockets.Payload.{completed_payload, failed_payload}
use migrate_app_backend.Workers.MigrationTasks.{mark_failed, fail_found, finalise}
use migrate_app_backend.Workers.MigrationTasks.Execute.{
  report_failed, after_run, execute, on_failure, after_task, run_task,
}
use migrate_app_backend.Workers.MigrationTasks.Execute.Through.{run_task-Returned}

-- the last of the broadcasts goes to this channel, with this payload
abbrev pub EndsWith : String → Object → List (String × Object) → Type 0
EndsWith channel payload sent =
    (earlier : List (String × Object)) × (sent ≡ earlier ++ (channel, payload) ∷ [])

-- The last broadcast tells the task's clients how it ended.
abbrev pub Announced : String → Result Results → List (String × Object) → Type 0
Announced id (ok results) sent = EndsWith id (completed_payload id results) sent
Announced id (raise exc) sent = EndsWith id (failed_payload id (message exc)) sent
Announced id out_of_fuel sent = Unit

mark_failed_returns :
    (id error : String) (t : ℕ) (o : Option Migration) (db : Database)
    → (fail_found id error t o db).0 ≡ ok tt
unfolding fail_found
mark_failed_returns id error t none db = refl
mark_failed_returns id error t (some m) db = refl

module _ {P : Python} {W : Type 0} (runtime : Runtime P W) (drivers : Drivers P W)
    (stored : Serializers) (fuel : ℕ) (id : String) where
  abbrev Completed : Results → System W → Type 0
  Completed r s = EndsWith id (completed_payload id r) s.sent

  after_run-Completed :
      (x : Results) (s : System W) (r : Results)
      → (after_run runtime drivers stored fuel id (returned x) s).0 ≡ ok r
      → Completed r (after_run runtime drivers stored fuel id (returned x) s).1
  unfolding after_run
  after_run-Completed x s =
      bind_elim (λ p. (r : Results) → p.0 ≡ ok r → Completed r p.1)
        (in_session runtime Session.at_end (finalise id x (runtime.now s.world)))
        (λ u. send id (completed_payload id x) >> pure x) s
        (λ u e r h. (
          _,
          ap
              (λ y.
                (in_session runtime Session.at_end (finalise id x (runtime.now s.world)) s).1.sent
                ++ (id, completed_payload id y) ∷ [])
              (ok-injective h),
        ))
        (λ r n m x' h. cc)

  -- what holds of a call that raised
  abbrev Raised : Result Results × System W → Type 0
  Raised p = (x : Exception) → p.0 ≡ raise x → EndsWith id (failed_payload id (message x)) p.1.sent

  reported-Raised :
      MarksFailed runtime drivers stored fuel id
      → (x : Exception) (u : System W)
      → Raised ((report_failed runtime id (message x) >>= λ _. throw x) u)
  unfolding report_failed mark_failed
  reported-Raised marks x u =
      rw
        (
          marks u.world,
          mark_failed_returns id (message x) (runtime.now u.world) (lookup id u.db.migrations) u.db,
        )
        (λ y h. (
          u.sent,
          ap (λ z. u.sent ++ (id, failed_payload id (message z)) ∷ []) (raise-injective _ refl h),
        ))

  after_task-Raised :
      MarksFailed runtime drivers stored fuel id
      → id ≢ ""
      → (c : Caught Results) (u : System W) → Raised (after_task runtime drivers stored fuel id c u)
  unfolding after_task on_failure
  after_task-Raised marks ne (returned r) u = λ x h. cc
  after_task-Raised marks ne (raised x) u =
      let named : str_eq id "" ≡ false = ground (arith, eq_iff id "") in
      rw named (reported-Raised marks x u)

  run_task-Raised :
      MarksFailed runtime drivers stored fuel id
      → id ≢ ""
      → (s : System W) → Raised (run_task runtime drivers stored fuel id s)
  unfolding run_task
  run_task-Raised marks ne s =
      caught_elim Raised (execute runtime drivers stored fuel id)
        (after_task runtime drivers stored fuel id) s (λ c h. after_task-Raised marks ne c _)
        (λ y j. cc)

  -- If the session of `_mark_failed` raises nothing, then a task that ends, with results or an exception, has broadcast last, to the channel of its
  -- migration: that it completed, with the results, if it returned them, and otherwise that it failed, with
  -- the text of the exception.
  pub run_task-Announced :
      MarksFailed runtime drivers stored fuel id
      → id ≢ ""
      → (s : System W)
      → Announced id
          (run_task runtime drivers stored fuel id s).0
          (run_task runtime drivers stored fuel id s).1.sent
  run_task-Announced marks ne s = go (run_task runtime drivers stored fuel id s).0 refl
    where
      t : System W
      t = (run_task runtime drivers stored fuel id s).1

      go :
          (r : Result Results)
          → (run_task runtime drivers stored fuel id s).0 ≡ r
          → Announced id r t.sent
      go (ok r) e =
          run_task-Returned runtime drivers stored fuel id Completed after_run-Completed s r e
      go (raise x) e = run_task-Raised marks ne s x e
      go out_of_fuel e = tt
