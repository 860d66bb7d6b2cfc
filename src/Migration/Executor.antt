-- ===== src/Migration/Executor.antt =====
-- app/migration/executor.py. The state of an executor is its count of rows and the world that the
-- databases, the callbacks and the clock share. Its log lines go to the process's output and are
-- left out; what `on_log` does with them is modelled.
pub mod Ends
pub mod Retry
pub mod Store
pub mod Copy
pub mod Visits
pub mod Run
pub mod Completes
pub mod Succeeds
pub mod Quiet
pub mod Finishes
use migrate_app_backend.Base.{
  ℕ, zero, suc, ◌+◌, ◌^◌, String, Option, none, some, Bool, true, false, List, [], ◌∷◌, ◌++◌, map,
  length, Exception, Result, ok, raise, out_of_fuel, ltb,
}
use migrate_app_backend.Base.Text.{◌<>◌, show}
use migrate_app_backend.Base.Effect.{
  Act, pure, lift, gets, modify, caught, Caught, returned, raised, message, when, ◌>>=◌, ◌>>◌,
}
use migrate_app_backend.Schemas.Migration
use migrate_app_backend.Schemas.Migration.{
  MigrationTablePlan, MigrationPlan, MigrationSettings, ColumnMapping, TableStatus,
}
use migrate_app_backend.Migration.Value.{Python, Row}
use migrate_app_backend.Migration.Mapper.{active_mappings, apply_mappings}
use migrate_app_backend.Providers.{Provider}

-- What changes while an executor runs: the world, and `_total_rows_processed`.
pub record State (W : Type 0) : Type 0 where
  pub world : W
  pub total : ℕ

-- The arguments of `MigrationExecutor`, and the event loop's `sleep`.
pub record MigrationExecutor (P : Python) (W : Type 0) : Type 0 where
  pub source : Provider P W
  pub destination : Provider P W
  pub settings : MigrationSettings
  pub on_progress : Option (String → ℕ → ℕ → Option String → Act W (Unit {0}))
  pub on_log : Option (String → String → Option String → Act W (Unit {0}))
  pub sleep : ℕ → Act W (Unit {0})

-- A call into the world.
abbrev pub outside : {W A : Type 0} → Act W A → Act (State W) A
outside m s = let (r, w) = m s.world in (r, record s { world = w })

abbrev pub add_rows : {W : Type 0} → ℕ → Act (State W) (Unit {0})
add_rows n s = (ok tt, record s { total = s.total + n })

-- `results` of `run`
pub record Results : Type 0 where
  pub completed_tables : List String
  pub skipped_tables : List String
  pub failed_tables : List String
  pub total_rows_migrated : ℕ

abbrev pub empty_results : Results
empty_results = record {
  completed_tables = [];
  skipped_tables = [];
  failed_tables = [];
  total_rows_migrated = 0;
}

module _ {P : Python} {W : Type 0} (self : MigrationExecutor P W) where
  abbrev pub max_retries : ℕ
  max_retries = self.settings.max_retries

  unfoldable pub call_log :
      Option (String → String → Option String → Act W (Unit {0}))
      → String
      → String
      → Option String
      → Act W (Unit {0})
  call_log none level text table = pure tt
  call_log (some on_log) level text table = on_log level text table

  -- `_log`
  unfoldable pub log : String → String → Option String → Act (State W) (Unit {0})
  unfolding call_log
  log level text table = outside (call_log self.on_log level text table)

  unfoldable pub call_progress :
      Option (String → ℕ → ℕ → Option String → Act W (Unit {0})) → String → ℕ → ℕ → Act W (Unit {0})
  call_progress none table rows total = pure tt
  call_progress (some on_progress) table rows total = on_progress table rows total none

  -- `if self._on_progress: await self._on_progress(…)`
  unfoldable pub progress : String → ℕ → Act (State W) (Unit {0})
  unfolding call_progress
  progress table rows s = outside (call_progress self.on_progress table rows s.total) s

  -- the `except` branch of a failed attempt, and the rounds after it
  unfoldable pub after_insert :
      (ℕ → Act (State W) Bool) → ℕ → String → Caught ℕ → Act (State W) Bool
  after_insert again attempt table (returned n) = pure true
  after_insert again attempt table (raised exc) = do
    log "WARNING"
        ("Insert attempt "
          <> show (attempt + 1)
          <> "/"
          <> show (max_retries + 1)
          <> " failed for '"
          <> table
          <> "': "
          <> message exc)
        (some table)
    when (ltb attempt max_retries) (outside (self.sleep (2 ^ attempt)))
    again (attempt + 1)

  -- the rounds of `_insert_with_retry` that are left, from the attempt of that number
  unfoldable pub insert_attempts : String → List (Row P) → ℕ → ℕ → Act (State W) Bool
  unfolding after_insert
  insert_attempts table rows zero attempt = do
    log "ERROR" ("All insert retries exhausted for table '" <> table <> "'") (some table)
    pure false
  insert_attempts table rows (suc left) attempt =
      caught (outside (self.destination.insert_batch table rows))
      >>= after_insert (insert_attempts table rows left) attempt table

  -- `_insert_with_retry`
  unfoldable pub insert_with_retry : String → List (Row P) → Act (State W) Bool
  insert_with_retry table rows = insert_attempts table rows (max_retries + 1) 0

  -- `apply_mappings(batch, …) if active_mappings else batch`, by the active mappings
  unfoldable pub transform_by :
      List ColumnMapping → List ColumnMapping → List (Row P) → Result (List (Row P))
  transform_by [] mappings batch = ok batch
  transform_by (m ∷ active) mappings batch = apply_mappings P batch mappings

  unfoldable pub transform : List ColumnMapping → List (Row P) → Result (List (Row P))
  unfolding transform_by
  transform mappings batch = transform_by (active_mappings mappings) mappings batch

  unfoldable pub columns_of : List ColumnMapping → Option (List String)
  columns_of [] = none
  columns_of (m ∷ ms) = some (m.source_col ∷ map (λ (c : ColumnMapping). c.source_col) ms)

  -- `[m["source_col"] for m in active_mappings] if active_mappings else None`
  unfoldable pub fetched_columns : List ColumnMapping → Option (List String)
  unfolding columns_of
  fetched_columns mappings = columns_of (active_mappings mappings)

  module _ (table : String) (mappings : List ColumnMapping) where
    -- the part of a round that follows a fetched batch: the transformed rows go to the destination
    unfoldable pub store_batch : List (Row P) → Act (State W) Bool
    store_batch batch = lift (transform mappings batch) >>= insert_with_retry table

    unfoldable pub fetch : ℕ → Act (State W) (List (Row P))
    fetch offset =
        outside
          (self.source.fetch_batch table offset self.settings.batch_size (fetched_columns mappings))

    module _ (again : ℕ → ℕ → ℕ → Act (State W) Bool) (offset rows_for_table : ℕ) where
      -- the counts that follow an insert that went through, and the next round
      unfoldable pub after_store : ℕ → Bool → Act (State W) Bool
      after_store count false = pure false
      after_store count true = do
        add_rows count
        progress table (rows_for_table + count)
        again (offset + count) (rows_for_table + count) 0

      -- `if retry_count < self._max_retries`
      unfoldable pub retry_fetch : ℕ → Bool → Act (State W) Bool
      retry_fetch retry_count false = pure false
      retry_fetch retry_count true = do
        outside (self.sleep (2 ^ (retry_count + 1)))
        again offset rows_for_table (retry_count + 1)

      -- a round, from the outcome of its fetch
      unfoldable pub after_fetch : ℕ → Caught (List (Row P)) → Act (State W) Bool
      unfolding after_store retry_fetch
      after_fetch retry_count (raised exc) = do
        log "ERROR"
            ("Failed to fetch batch at offset "
              <> show offset
              <> " for '"
              <> table
              <> "': "
              <> message exc)
            (some table)
        retry_fetch retry_count (ltb retry_count max_retries)
      after_fetch retry_count (returned []) = do
        log "INFO" ("Completed '" <> table <> "': " <> show rows_for_table <> " rows migrated")
            (some table)
        pure true
      after_fetch retry_count (returned (row ∷ rows)) =
          store_batch (row ∷ rows) >>= after_store (length (row ∷ rows))

    -- the `while True` loop of `_migrate_table`, with its three variables
    unfoldable pub copy_loop : ℕ → ℕ → ℕ → ℕ → Act (State W) Bool
    unfolding after_fetch fetch
    copy_loop zero offset rows_for_table retry_count = lift out_of_fuel
    copy_loop (suc fuel) offset rows_for_table retry_count =
        caught (fetch offset) >>= after_fetch (copy_loop fuel) offset rows_for_table retry_count

  unfoldable pub after_create : String → Caught (Unit {0}) → Act (State W) Bool
  after_create table (returned u) = pure true
  after_create table (raised exc) = do
    log "ERROR" ("Failed to create table '" <> table <> "': " <> message exc) (some table)
    pure false

  -- step 1 of `_migrate_table`: whether to go on
  unfoldable pub ensure_table : MigrationTablePlan → Bool → Act (State W) Bool
  unfolding after_create
  ensure_table t false = pure true
  ensure_table t true =
      caught (do
        outside (self.destination.create_table t.source_schema)
        log "INFO" ("Table '" <> t.table_name <> "' ensured in destination") (some t.table_name))
      >>= after_create t.table_name

  unfoldable pub after_truncate : String → Caught (Unit {0}) → Act (State W) (Unit {0})
  after_truncate table (returned u) = pure tt
  after_truncate table (raised exc) =
      log "WARNING" ("Could not truncate '" <> table <> "': " <> message exc) (some table)

  -- step 2 of `_migrate_table`
  unfoldable pub clear_table : String → Bool → Act (State W) (Unit {0})
  unfolding after_truncate
  clear_table table false = pure tt
  clear_table table true =
      caught (do
        outside (self.destination.truncate_table table)
        log "INFO" ("Truncated destination table '" <> table <> "'") (some table))
      >>= after_truncate table

  -- step 3 of `_migrate_table`
  unfoldable pub copy_table : ℕ → MigrationTablePlan → Bool → Act (State W) Bool
  copy_table fuel t false = do
    log "INFO" ("Skipping data copy for '" <> t.table_name <> "' (include_data=false)")
        (some t.table_name)
    pure true
  copy_table fuel t true = copy_loop t.table_name t.column_mappings fuel 0 0 0

  unfoldable pub after_ensure : ℕ → MigrationTablePlan → Bool → Act (State W) Bool
  unfolding clear_table copy_table
  after_ensure fuel t false = pure false
  after_ensure fuel t true = do
    clear_table t.table_name self.settings.truncate_destination
    copy_table fuel t self.settings.include_data

  -- `_migrate_table`
  unfoldable pub migrate_table : ℕ → MigrationTablePlan → Act (State W) Bool
  unfolding ensure_table after_ensure
  migrate_table fuel t = do
    log "INFO" ("Starting migration of table '" <> t.table_name <> "'") (some t.table_name)
    ensure_table t self.settings.include_schema >>= after_ensure fuel t

  -- `if not self._continue_on_error: break`
  unfoldable pub after_failure :
      (Results → Act (State W) Results) → Results → Bool → Act (State W) Results
  after_failure again results true = again results
  after_failure again results false = pure results

  -- the rest of a round of `run` for a table that was tried
  unfoldable pub after_table :
      (Results → Act (State W) Results) → String → Results → Bool → Act (State W) Results
  unfolding after_failure
  after_table again table results true =
      again (record results { completed_tables = results.completed_tables ++ table ∷ [] })
  after_table again table results false =
      after_failure again (record results { failed_tables = results.failed_tables ++ table ∷ [] })
        self.settings.continue_on_error

  unfoldable pub log_skip : String → Act (State W) (Unit {0})
  log_skip table = log "WARNING" ("Skipping table '" <> table <> "' (incompatible schema)") none

  -- a round of `run`
  unfoldable pub run_table :
      ℕ
      → (Results → Act (State W) Results)
      → MigrationTablePlan
      → Results
      → TableStatus
      → Act (State W) Results
  unfolding after_table log_skip
  run_table fuel again t results TableStatus.skipped =
      log_skip t.table_name
      >> again (record results { skipped_tables = results.skipped_tables ++ t.table_name ∷ [] })
  run_table fuel again t results TableStatus.pending =
      migrate_table fuel t >>= after_table again t.table_name results

  -- the loop of `run` over the tables of the plan
  unfoldable pub run_tables : ℕ → List MigrationTablePlan → Results → Act (State W) Results
  unfolding run_table
  run_tables fuel [] results = pure results
  run_tables fuel (t ∷ rest) results = run_table fuel (run_tables fuel rest) t results t.status

  abbrev pub set_total : Results → Act (State W) Results
  set_total results s = (ok (record results { total_rows_migrated = s.total }), s)

  -- `run`; every table's copy loop is given the same fuel
  unfoldable pub run : ℕ → MigrationPlan → Act (State W) Results
  unfolding run_tables
  run fuel plan = run_tables fuel plan.tables empty_results >>= set_total
