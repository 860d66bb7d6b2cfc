-- ===== src/Workers/MigrationTasks/Execute/Outcome.antt =====
-- app/workers/migration_tasks.py: what a task's row says when the task has ended.
use mathlib.Core.Path.{subst}
use migrate_app_backend.Base.{
  ℕ, String, Option, none, some, Bool, true, false, List, [], ◌∷◌, Result, ok, raise, Exception,
  str_eq, ◌≡◌, ◌≢◌, refl, sym, ap, ◌∙◌, arith, is_some, eq_iff, length,
}
use migrate_app_backend.Base.Dict.{Dict, lookup, lookup-insert}
use migrate_app_backend.Base.Effect.{
  ok-injective, pure, throw, unless, message, Caught, returned, raised, ◌>>=◌, ◌>>◌,
}
use migrate_app_backend.Base.Calls.{bind_elim, caught_elim}
use migrate_app_backend.Core.Constants.{MigrationStatus}
use migrate_app_backend.Migration.Value.{Python}
use migrate_app_backend.Migration.Executor.{Results}
use migrate_app_backend.Models.{Migration, Database}
use migrate_app_backend.Services.MigrationService.{save}
use migrate_app_backend.Services.Stored.{Serializers}
use migrate_app_backend.Providers.Registry.{Drivers}
use migrate_app_backend.Workers.System.{System, Runtime, Session, in_session, send}
use migrate_app_backend.Websockets.Payload.{completed_payload}
use migrate_app_backend.Workers.System.Sessions.{in_session_returned}
use migrate_app_backend.Workers.MigrationTasks.{
  first_chars, mark_failed, fail_found, failed, finalise, finalise_found, finalised,
}
use migrate_app_backend.Workers.MigrationTasks.Execute.{
  report_failed, after_run, execute, on_failure, after_task, run_task,
}
use migrate_app_backend.Workers.MigrationTasks.Execute.Through.{run_task-Returned}
use migrate_app_backend.Workers.MigrationTasks.Execute.Stable.{
  IsStable, execute-Keeps, run_task-Keeps,
}

-- `MigrationStatus.FAILED if failed_tables else MigrationStatus.COMPLETED`
abbrev pub status_after : List String → MigrationStatus
status_after [] = MigrationStatus.completed
status_after (t ∷ ts) = MigrationStatus.failed

-- The row tells of the results of a run.
pub record IsFinal (results : Results) (m : Migration) : Type 0 where
  pub status : m.status ≡ status_after results.failed_tables
  pub completed_tables : m.completed_tables ≡ length results.completed_tables
  pub processed_rows : m.processed_rows ≡ results.total_rows_migrated
  pub current_table : m.current_table ≡ none
  pub completed_at : is_some m.completed_at ≡ true

-- The row tells of an exception.
pub record IsFailed (e : Exception) (m : Migration) : Type 0 where
  pub status : m.status ≡ MigrationStatus.failed
  pub error_message : m.error_message ≡ some (first_chars 2000 (message e))
  pub completed_at : is_some m.completed_at ≡ true

-- the row of `id` is one of those that `Q` is about
abbrev pub RowIs : String → (Migration → Type 0) → Dict Migration → Type 0
RowIs id Q d = (m : Migration) × (lookup id d ≡ some m) × Q m

module _ (id : String) where
  -- a row that is there stays there
  pub has_row-IsStable : IsStable id (λ d. is_some (lookup id d))
  has_row-IsStable = record {
    at = λ d m m' e. ground (arith, lookup-insert id id m' d, eq_iff id id);
  }

  -- the rows of the other migrations
  pub others-IsStable : (j : String) → j ≢ id → IsStable id (λ d. lookup j d)
  others-IsStable j ne = record {
    at = λ d m m' e. ground (arith, lookup-insert j id m' d, eq_iff id j);
  }

  saved :
      (Q : Migration → Type 0) (m : Migration) (db : Database)
      → Q m
      → RowIs id Q (save id m db).1.migrations
  saved Q m db q = (m, ground (arith, lookup-insert id id m db.migrations, eq_iff id id), q)

  finalised-IsFinal :
      (m : Migration) (r : Results) (t : ℕ) (ts : List String)
      → r.failed_tables ≡ ts
      → IsFinal r (finalised m r t ts)
  unfolding finalised
  finalised-IsFinal m r t [] e = record {
    status = ap status_after (sym e);
    completed_tables = refl;
    processed_rows = refl;
    current_table = refl;
    completed_at = refl;
  }
  finalised-IsFinal m r t (x ∷ ts) e = record {
    status = ap status_after (sym e);
    completed_tables = refl;
    processed_rows = refl;
    current_table = refl;
    completed_at = refl;
  }

  finalise-IsFinal :
      (r : Results) (t : ℕ) (o : Option Migration) (db : Database)
      → (finalise_found id r t o db).0 ≡ ok tt
      → RowIs id (IsFinal r) (finalise_found id r t o db).1.migrations
  unfolding finalise_found
  finalise-IsFinal r t none db e = cc
  finalise-IsFinal r t (some m) db e =
      saved (IsFinal r) (finalised m r t r.failed_tables) db
        (finalised-IsFinal m r t r.failed_tables refl)

  fail-IsFailed :
      (x : Exception) (t : ℕ) (o : Option Migration) (db : Database)
      → is_some o ≡ true
      → RowIs id (IsFailed x) (fail_found id (message x) t o db).1.migrations
  unfolding fail_found failed
  fail-IsFailed x t none db e = cc
  fail-IsFailed x t (some m) db e =
      saved (IsFailed x) (failed m (message x) t) db
        (record { status = refl; error_message = refl; completed_at = refl })

pub raise-injective :
    {A : Type 0} {x y : Exception} (r : Result A) → r ≡ raise x → r ≡ raise y → x ≡ y
raise-injective r h k = cc

module _ {P : Python} {W : Type 0} (runtime : Runtime P W) (drivers : Drivers P W)
    (stored : Serializers) (fuel : ℕ) (id : String) where
  -- what holds of the database when a run was stored
  abbrev Stored : Results → System W → Type 0
  Stored r s = RowIs id (IsFinal r) s.db.migrations

  after_run-Stored :
      (x : Results) (s : System W) (r : Results)
      → (after_run runtime drivers stored fuel id (returned x) s).0 ≡ ok r
      → Stored r (after_run runtime drivers stored fuel id (returned x) s).1
  unfolding after_run finalise
  after_run-Stored x s =
      bind_elim (λ p. (r : Results) → p.0 ≡ ok r → Stored r p.1)
        (in_session runtime Session.at_end (finalise id x (runtime.now s.world)))
        (λ u. send id (completed_payload id x) >> pure x) s
        (λ u e r h.
          let (returned_ok, same) =
            in_session_returned runtime Session.at_end (finalise id x (runtime.now s.world)) s u
              e in
          subst
            (λ y.
              RowIs id (IsFinal y)
                (in_session runtime Session.at_end (finalise id x (runtime.now s.world))
                  s).1.db.migrations)
            (ok-injective h)
            (subst (λ (d : Database). RowIs id (IsFinal x) d.migrations) (sym same)
              (finalise-IsFinal id x (runtime.now s.world) (lookup id s.db.migrations) s.db
                returned_ok)))
        (λ r n m x' h. cc)

  -- If a task returns the results of its run, then the row of its migration is there and
  -- tells of them: it is `completed` where no table failed and `failed` where one did, with the
  -- numbers of completed tables and of rows that the run counted, no current table, and an end.
  pub run_task-IsFinal :
      (s t : System W) (r : Results)
      → run_task runtime drivers stored fuel id s ≡ (ok r, t)
      → RowIs id (IsFinal r) t.db.migrations
  run_task-IsFinal s t r h =
      subst (λ (p : Result Results × System W). RowIs id (IsFinal r) p.1.db.migrations) h
        (run_task-Returned runtime drivers stored fuel id Stored after_run-Stored s r
          (ap (λ (p : Result Results × System W). p.0) h))

  -- what holds of the database when a call raised
  abbrev Raised : Result Results × System W → Type 0
  Raised p = (x : Exception) → p.0 ≡ raise x → RowIs id (IsFailed x) p.1.db.migrations

  -- the session of `_mark_failed` raises nothing
  abbrev pub MarksFailed : Type 0
  MarksFailed = (w : W) → (runtime.session Session.at_failure w).0 ≡ ok tt

  on_failure-Raised :
      (x : Exception) (s : System W) (b : Bool) (o : Option Migration)
      → MarksFailed
      → b ≡ false
      → lookup id s.db.migrations ≡ o
      → is_some o ≡ true
      → Raised ((unless b (report_failed runtime id (message x)) >>= λ u. throw x) s)
  unfolding report_failed mark_failed fail_found
  on_failure-Raised x s true o g f e j = cc
  on_failure-Raised x s false none g f e j = cc
  on_failure-Raised x s false (some m) g f e j =
      rw (g s.world, e)
        (λ y h.
          subst
            (λ z.
              RowIs id (IsFailed z)
                (fail_found id (message x) (runtime.now s.world) (some m) s.db).1.migrations)
            (raise-injective _ refl h)
            (fail-IsFailed id x (runtime.now s.world) (some m) s.db refl))

  -- If the session of `_mark_failed` raises nothing and a task whose migration has a row raises, then
  -- afterwards the row is `failed`, with an end, and with the first 2000 characters of the
  -- exception's text as its error, whichever other part of the task raised it, also one of its
  -- other sessions.
  pub run_task-IsFailed :
      (s t : System W) (x : Exception)
      → MarksFailed
      → id ≢ ""
      → is_some (lookup id s.db.migrations) ≡ true
      → run_task runtime drivers stored fuel id s ≡ (raise x, t)
      → RowIs id (IsFailed x) t.db.migrations
  unfolding run_task after_task on_failure
  run_task-IsFailed s t x marks ne there h =
      subst (λ (p : Result Results × System W). RowIs id (IsFailed x) p.1.db.migrations) h
        (caught_elim Raised ((execute runtime drivers stored fuel id))
          (after_task runtime drivers stored fuel id) s (λ c e. after_task-Raised c) (λ y j. cc) x
          (ap (λ (p : Result Results × System W). p.0) h))
    where
      u : System W
      u = (execute runtime drivers stored fuel id s).1

      still_there : is_some (lookup id u.db.migrations) ≡ true
      still_there =
          (execute-Keeps id (λ d. is_some (lookup id d)) (has_row-IsStable id) runtime drivers
              stored fuel).at
            s
          ∙ there

      after_task-Raised :
          (c : Caught Results) → Raised (after_task runtime drivers stored fuel id c u)
      after_task-Raised (returned y) z j = cc
      after_task-Raised (raised y) z j =
          on_failure-Raised y u (str_eq id "") (lookup id u.db.migrations) marks
            (ground (arith, eq_iff id "")) refl still_there z j

  -- However a task ends, the rows of all the other migrations are as before, and none was added
  -- or removed.
  pub run_task-others :
      (j : String)
      → j ≢ id
      → (s : System W)
      → lookup j (run_task runtime drivers stored fuel id s).1.db.migrations
        ≡ lookup j s.db.migrations
  run_task-others j ne =
      (run_task-Keeps id (λ d. lookup j d) (others-IsStable id j ne) runtime drivers stored fuel).at
