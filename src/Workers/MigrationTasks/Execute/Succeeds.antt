-- ===== src/Workers/MigrationTasks/Execute/Succeeds.antt =====
-- app/workers/migration_tasks.py: the body of a task's `async with` block, where all calls succeed.
use migrate_app_backend.Base.{
  ℕ, ◌≤◌, ◌<◌, String, Option, none, some, true, List, [], ◌∷◌, ok, All, ◌≡◌, refl, is_some, is_ok,
  arith, eq_iff,
}
use migrate_app_backend.Base.Dict.{Dict, lookup, insert, lookup-insert}
use migrate_app_backend.Base.Effect.{Act, ◌>>=◌}
use migrate_app_backend.Base.Yields.{Yields, Any, Yields-pure, Yields-bind, Yields-try}
use migrate_app_backend.Schemas.Migration.{
  ColumnMapping, TableSchema, TableStatus, MigrationTablePlan, MigrationPlan, MigrationSettings,
}
use migrate_app_backend.Models.{Migration, Database}
use migrate_app_backend.Migration.Value.{Python, Row}
use migrate_app_backend.Migration.Mapper.{active_mappings}
use migrate_app_backend.Migration.Mapper.Converts.{IsConverting, apply_mappings_ok}
use migrate_app_backend.Migration.Planner.{build_plan}
use migrate_app_backend.Migration.Planner.Succeeds.{build_plan-Yields}
use migrate_app_backend.Migration.Executor.{
  MigrationExecutor, Results, call_log, call_progress, transform, transform_by,
}
use migrate_app_backend.Migration.Executor.Completes.{IsReliable}
use migrate_app_backend.Migration.Executor.Succeeds.{IsCopyable, IsRunnable, run-Yields}
use migrate_app_backend.Providers.{Provider}
use migrate_app_backend.Providers.Session.{opened}
use migrate_app_backend.Services.Stored.{TaskConfig}
use migrate_app_backend.Utils.Json.{Object}
use migrate_app_backend.Workers.System.{
  System, Runtime, Session, on_world, on_db, in_session, send, within, in_system,
}
use migrate_app_backend.Workers.MigrationTasks.{
  record_progress, progress_found, finalise, finalise_found,
}
use migrate_app_backend.Workers.MigrationTasks.Execute.{
  elapsed, on_progress, add_log, on_log, make_executor, run_executor, migrate,
}

-- Every call of the provider succeeds in the states for which an invariant holds, and keeps it; no
-- table has a row at or after `size`.
pub record IsWorking {P : Python} {W : Type 0} (I : W → Type 0) (size : ℕ) (p : Provider P W)
    : Type 0 where
  pub connects : Yields I Any p.connect
  pub disconnects : Yields I Any p.disconnect
  pub schemas : (t : String) → Yields I Any (p.get_table_schema t)
  pub exists : (t : String) → Yields I Any (p.table_exists t)
  pub fetches :
      (t : String) (offset limit : ℕ) (columns : Option (List String))
      → Yields I
          (λ (batch : List (Row P)). size ≤ offset → batch ≡ [])
          (p.fetch_batch t offset limit columns)
  pub creates : (t : TableSchema) → Yields I Any (p.create_table t)
  pub inserts : (t : String) (rows : List (Row P)) → Yields I Any (p.insert_batch t rows)
  pub truncates : (t : String) → Yields I Any (p.truncate_table t)

-- no table has failed
abbrev pub IsClean : Results → Type 0
IsClean results = results.failed_tables ≡ []

module _ {P : Python} {W : Type 0} (runtime : Runtime P W) (id : String) (I : W → Type 0) where
  -- the migration has a row
  abbrev pub HasRow : Database → Type 0
  HasRow db = is_some (lookup id db.migrations) ≡ true

  -- the invariant of the databases that are migrated, and a row in the application's
  abbrev pub IsSound : System W → Type 0
  IsSound s = I s.world × HasRow s.db

  on_world-Yields :
      {A : Type 0} (Q : A → Type 0) (m : Act W A) → Yields I Q m → Yields IsSound Q (on_world m)
  on_world-Yields Q m h = record {
    at = λ s i. let (a, e, q, j) = h.at s.world i.0 in (a, e, q, (j, i.1));
  }

  pub session-Yields :
      {A : Type 0} (Q : A → Type 0) (k : Session) (m : Act Database A)
      → Yields I Any (runtime.session k)
      → Yields HasRow Q m
      → Yields IsSound Q (in_session runtime k m)
  session-Yields Q k m opens h =
      Yields-bind IsSound Any Q (on_world (runtime.session k)) (λ u. on_db m)
        (on_world-Yields Any _ opens)
        (λ u r. record { at = λ s i. let (a, e, q, j) = h.at s.db i.1 in (a, e, q, (i.0, j)) })

  pub send-Yields : (payload : Object) → Yields IsSound Any (send id payload)
  send-Yields payload = record { at = λ s i. (tt, refl, tt, i) }

  pub insert-is_some :
      (m : Migration) (ms : Dict Migration) → is_some (lookup id (insert id m ms)) ≡ true
  insert-is_some m ms = ground (arith, lookup-insert id id m ms, eq_iff id id)

  record_progress-Yields :
      (table : String) (rows : ℕ) → Yields HasRow Any (record_progress id table rows)
  unfolding record_progress progress_found
  record_progress-Yields table rows = record { at = λ db h. found db (lookup id db.migrations) h }
    where
      found :
          (db : Database) (o : Option Migration)
          → is_some o ≡ true
          → (u : Unit {0}) × ((progress_found id table rows o db).0 ≡ ok u)
            × Unit {0}
            × HasRow (progress_found id table rows o db).1
      found db none h = cc
      found db (some m) h = (tt, refl, tt, insert-is_some _ db.migrations)

  pub finalise-Yields : (results : Results) (t : ℕ) → Yields HasRow Any (finalise id results t)
  unfolding finalise finalise_found
  finalise-Yields results t = record { at = λ db h. found db (lookup id db.migrations) h }
    where
      found :
          (db : Database) (o : Option Migration)
          → is_some o ≡ true
          → (u : Unit {0}) × ((finalise_found id results t o db).0 ≡ ok u)
            × Unit {0}
            × HasRow (finalise_found id results t o db).1
      found db none h = cc
      found db (some m) h = (tt, refl, tt, insert-is_some _ db.migrations)

  stored_then_sent :
      (k : Session) (m : Act Database (Unit {0})) (payload : Object)
      → Yields I Any (runtime.session k)
      → Yields HasRow Any m
      → Yields IsSound Any (in_session runtime k m >>= λ u. send id payload)
  stored_then_sent k m payload opens h =
      Yields-bind IsSound Any Any (in_session runtime k m) _ (session-Yields Any k m opens h)
        (λ u q. send-Yields payload)

  on_progress-Yields :
      (total_rows : ℕ) (timer : P.Float) (table : String) (rows total : ℕ) (error : Option String)
      → Yields I Any (runtime.session Session.at_progress)
      → Yields IsSound Any (on_progress runtime id total_rows timer table rows total error)
  unfolding on_progress elapsed
  on_progress-Yields total_rows timer table rows total error opens = record {
    at = λ s i.
        (stored_then_sent Session.at_progress _ _ opens (record_progress-Yields table total)).at s
          i;
  }

  pub within-Yields :
      {A : Type 0} (Q : A → Type 0) (size : ℕ) (p : Provider P W) (m : Act (System W) A)
      → IsWorking I size p
      → Yields IsSound Q m
      → Yields IsSound Q (within p m)
  unfolding opened
  within-Yields Q size p m h k =
      Yields-bind IsSound Any Q (on_world p.connect) _ (on_world-Yields Any _ h.connects) (λ u q.
        Yields-try IsSound Q Q m _ k (λ a q.
          Yields-bind IsSound Any Q (on_world p.disconnect) _ (on_world-Yields Any _ h.disconnects)
            (λ v r. Yields-pure IsSound Q a q)))

  -- taking a fresh UUID keeps the invariant
  module _ (sessions : (k : Session) → Yields I Any (runtime.session k))
      (names : (w : W) → I w → I (runtime.new_uuid w).1) (size : ℕ) (src dst : Provider P W)
      (hs : IsWorking I size src) (hd : IsWorking I size dst) (converts : IsConverting P) (fuel : ℕ)
      (enough : size < fuel) where
    on_log-Yields :
        (level text : String) (table : Option String)
        → Yields IsSound Any (on_log runtime id level text table)
    unfolding on_log
    on_log-Yields level text table = record {
      at = λ s i.
          (stored_then_sent Session.at_log (add_log runtime id level text table _ _) _
              (sessions Session.at_log) (record { at = λ db h. (tt, refl, tt, h) })).at
            (record s { world = (runtime.new_uuid s.world).1 }) (names s.world i.0, i.1);
    }

    module _ (settings : MigrationSettings) (total_rows : ℕ) (timer : P.Float) where
      executor : MigrationExecutor P (System W)
      executor = make_executor runtime id src dst settings total_rows timer

      transform_by_ok :
          (active ms : List ColumnMapping) (rows : List (Row P))
          → is_ok (transform_by executor active ms rows) ≡ true
      unfolding transform_by
      transform_by_ok [] ms rows = refl
      transform_by_ok (m ∷ active) ms rows = apply_mappings_ok P converts rows ms

      executor-IsReliable :
          (table : String) (mappings : List ColumnMapping)
          → IsReliable executor IsSound table mappings size
      unfolding executor make_executor call_progress transform
      executor-IsReliable table mappings = record {
        fetches = λ offset. on_world-Yields _ _ (hs.fetches table offset _ _);
        inserts = λ rows. on_world-Yields Any _ (hd.inserts table rows);
        transforms = λ rows. transform_by_ok (active_mappings mappings) mappings rows;
        reports = λ rows total.
            on_progress-Yields total_rows timer table rows total none
              (sessions Session.at_progress);
      }

      executor-IsCopyable :
          (status : TableStatus) (t : MigrationTablePlan)
          → IsCopyable executor IsSound size status t
      executor-IsCopyable TableStatus.pending t = executor-IsReliable t.table_name t.column_mappings
      executor-IsCopyable TableStatus.skipped t = tt

      executor-IsRunnable : (ts : List MigrationTablePlan) → IsRunnable executor IsSound size ts
      unfolding executor make_executor call_log
      executor-IsRunnable ts = record {
        loops = all_copyable ts;
        creates = λ t. on_world-Yields Any _ (hd.creates t);
        truncates = λ t. on_world-Yields Any _ (hd.truncates t);
        logging = record { logs = on_log-Yields };
      }
        where
          all_copyable :
              (ts : List MigrationTablePlan)
              → All (λ (t : MigrationTablePlan). IsCopyable executor IsSound size t.status t) ts
          all_copyable [] = tt
          all_copyable (t ∷ ts) = (executor-IsCopyable t.status t, all_copyable ts)

    run_executor-Yields :
        (settings : MigrationSettings) (timer : P.Float) (plan : MigrationPlan)
        → Yields IsSound IsClean
            (run_executor runtime id fuel (executor settings plan.total_rows timer) plan)
    unfolding run_executor
    run_executor-Yields settings timer plan = record {
      at = λ s i.
          let (r, e, q, j) =
            (run-Yields (executor settings plan.total_rows timer) IsSound size fuel plan
                (executor-IsRunnable settings plan.total_rows timer plan.tables) enough).at
              (record { world = s; total = 0 }) i in
          (r, e, q.2, j);
    }

    pub migrate-Yields :
        (config : TaskConfig) (timer : P.Float)
        → Yields IsSound IsClean (migrate runtime id fuel src dst config timer)
    unfolding migrate executor
    migrate-Yields config timer =
        Yields-bind IsSound Any IsClean (build_plan (in_system src) (in_system dst) config.tables) _
          (build_plan-Yields IsSound (in_system src) (in_system dst)
            (λ t. on_world-Yields Any _ (hs.schemas t)) (λ t. on_world-Yields Any _ (hd.schemas t))
            (λ t. on_world-Yields Any _ (hd.exists t)) config.tables)
          (λ plan q. run_executor-Yields config.settings timer plan)
