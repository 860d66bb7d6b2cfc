-- ===== src/Workers/MigrationTasks/Execute/Settles.antt =====
-- app/workers/migration_tasks.py: no task leaves its row running.
use migrate_app_backend.Base.{
  ℕ, ◌+◌, ◌*◌, ◌<◌, String, true, List, [], ◌∷◌, Result, ok, raise, out_of_fuel, ◌≡◌, ◌≢◌, ◌⊎◌, inl,
  inr, refl, is_some,
}
use migrate_app_backend.Base.Dict.{lookup}
use migrate_app_backend.Core.Constants.{MigrationStatus}
use migrate_app_backend.Migration.Value.{Python}
use migrate_app_backend.Migration.Executor.{Results}
use migrate_app_backend.Models.{Migration}
use migrate_app_backend.Providers.Registry.{Drivers}
use migrate_app_backend.Services.Stored.{Serializers}
use migrate_app_backend.Workers.System.{System, Runtime}
use migrate_app_backend.Workers.MigrationTasks.Execute.{run_task}
use migrate_app_backend.Workers.MigrationTasks.Execute.Ends.{IsServed}
use migrate_app_backend.Workers.MigrationTasks.Execute.Finishes.{run_task-Terminates}
use migrate_app_backend.Workers.MigrationTasks.Execute.Outcome.{
  MarksFailed, status_after, RowIs, run_task-IsFinal, run_task-IsFailed,
}

abbrev pub IsSettled : Migration → Type 0
IsSettled m = (m.status ≡ MigrationStatus.completed) ⊎ (m.status ≡ MigrationStatus.failed)

status_after-IsSettled :
    (m : Migration) (ts : List String) → m.status ≡ status_after ts → IsSettled m
status_after-IsSettled m [] e = inl e
status_after-IsSettled m (t ∷ ts) e = inr e

module _ {P : Python} {W : Type 0} (runtime : Runtime P W) (drivers : Drivers P W)
    (stored : Serializers) (size : ℕ) (id : String) (h : IsServed runtime drivers stored size) where
  -- If the libraries' calls, the sessions and the calls of the providers come back, with values or
  -- exceptions, no table has a row at or after `size` (`IsServed`), and the session of
  -- `_mark_failed` raises nothing, then a task with fuel for that many rows leaves the row of its
  -- migration, if there is one, as `completed` or `failed`, whatever the row said before and
  -- whichever other calls and sessions fail.
  pub run_task-IsSettled :
      (fuel : ℕ)
      → size * 11 + 10 < fuel
      → MarksFailed runtime drivers stored fuel id
      → id ≢ ""
      → (s : System W) → is_some (lookup id s.db.migrations) ≡ true
      → RowIs id IsSettled (run_task runtime drivers stored fuel id s).1.db.migrations
  run_task-IsSettled fuel enough marks ne s there =
      go (run_task runtime drivers stored fuel id s).0 refl
    where
      t : System W
      t = (run_task runtime drivers stored fuel id s).1

      go :
          (r : Result Results)
          → (run_task runtime drivers stored fuel id s).0 ≡ r
          → RowIs id IsSettled t.db.migrations
      go (ok r) e =
          let (m, at, final) =
            run_task-IsFinal runtime drivers stored fuel id s t r (λ i. (e i, t)) in
          (m, at, status_after-IsSettled m r.failed_tables final.status)
      go (raise x) e =
          let (m, at, failed) =
            run_task-IsFailed runtime drivers stored fuel id s t x marks ne there (λ i. (e i, t)) in
          (m, at, inr failed.status)
      go out_of_fuel e =
          absurd ((run_task-Terminates runtime drivers stored size id h fuel enough).at s e)
