-- ===== src/Migration/Executor/Quiet.antt =====
-- app/migration/executor.py: what a run leaves alone, if each of its calls does.
use migrate_app_backend.Base.{
  ℕ, zero, suc, ◌+◌, String, Option, Bool, true, false, List, [], ◌∷◌, refl,
}
use migrate_app_backend.Base.Effect.{Act, lift, Caught, returned, raised}
use migrate_app_backend.Base.Calls.{Keeps, Keeps-pure, Keeps-bind, Keeps-when, Keeps-caught}
use migrate_app_backend.Schemas.Migration.{
  ColumnMapping, TableSchema, MigrationTablePlan, MigrationPlan, TableStatus,
}
use migrate_app_backend.Migration.Value.{Python, Row}
use migrate_app_backend.Migration.Executor.{
  State, MigrationExecutor, Results, add_rows, log, progress, after_insert, insert_attempts,
  insert_with_retry, transform, store_batch, fetch, after_store, retry_fetch, after_fetch,
  copy_loop, after_create, ensure_table, after_truncate, clear_table, copy_table, after_ensure,
  migrate_table, after_failure, after_table, log_skip, run_table, run_tables, set_total, run,
  empty_results,
}
use migrate_app_backend.Migration.Executor.Retry.{outside-Keeps}

module _ {P : Python} {W X : Type 0} (v : W → X) (self : MigrationExecutor P W) where
  abbrev seen : State W → X
  seen s = v s.world

  -- Every call that a run makes leaves `v` alone.
  pub record IsQuiet : Type 0 where
    pub fetches :
        (t : String) (o n : ℕ) (cs : Option (List String))
        → Keeps v (self.source.fetch_batch t o n cs)
    pub creates : (t : TableSchema) → Keeps v (self.destination.create_table t)
    pub truncates : (t : String) → Keeps v (self.destination.truncate_table t)
    pub inserts :
        (t : String) (rows : List (Row P)) → Keeps v (self.destination.insert_batch t rows)
    pub logs : (level text : String) (t : Option String) → Keeps seen (log self level text t)
    pub reports : (t : String) (n : ℕ) → Keeps seen (progress self t n)
    pub sleeps : (n : ℕ) → Keeps v (self.sleep n)

  module _ (h : IsQuiet) where
    after_insert-Keeps :
        (again : ℕ → Act (State W) Bool) (attempt : ℕ) (table : String) (r : Caught ℕ)
        → ((k : ℕ) → Keeps seen (again k))
        → Keeps seen (after_insert self again attempt table r)
    unfolding after_insert
    after_insert-Keeps again attempt table (returned n) k = Keeps-pure seen true
    after_insert-Keeps again attempt table (raised e) k = Keeps-bind _ _ seen (h.logs _ _ _) λ u.
        Keeps-bind _ _ seen (Keeps-when seen _ _ (outside-Keeps v _ (h.sleeps _)))
          λ w. k (attempt + 1)

    insert_attempts-Keeps :
        (table : String) (rows : List (Row P)) (left attempt : ℕ)
        → Keeps seen (insert_attempts self table rows left attempt)
    unfolding insert_attempts
    insert_attempts-Keeps table rows zero attempt =
        Keeps-bind _ _ seen (h.logs _ _ _) λ u. Keeps-pure seen false
    insert_attempts-Keeps table rows (suc left) attempt =
        Keeps-bind _ _ seen (Keeps-caught seen _ (outside-Keeps v _ (h.inserts table rows))) λ r.
          after_insert-Keeps (insert_attempts self table rows left) attempt table r
            (insert_attempts-Keeps table rows left)

    store_batch-Keeps :
        (table : String) (ms : List ColumnMapping) (batch : List (Row P))
        → Keeps seen (store_batch self table ms batch)
    unfolding store_batch insert_with_retry
    store_batch-Keeps table ms batch =
        Keeps-bind (lift (transform self ms batch)) _ seen (record { at = λ s. refl })
          λ rows. insert_attempts-Keeps table rows _ 0

    module _ (table : String) (ms : List ColumnMapping) (again : ℕ → ℕ → ℕ → Act (State W) Bool)
        (k : (o n c : ℕ) → Keeps seen (again o n c)) where
      after_store-Keeps :
          (offset rows count : ℕ) (b : Bool)
          → Keeps seen (after_store self table ms again offset rows count b)
      unfolding after_store
      after_store-Keeps offset rows count false = Keeps-pure seen false
      after_store-Keeps offset rows count true =
          Keeps-bind (add_rows count) _ seen (record { at = λ s. refl })
            λ u.
              Keeps-bind _ _ seen (h.reports table (rows + count))
                λ w. k (offset + count) (rows + count) 0

      retry_fetch-Keeps :
          (offset rows count : ℕ) (b : Bool)
          → Keeps seen (retry_fetch self table ms again offset rows count b)
      unfolding retry_fetch
      retry_fetch-Keeps offset rows count false = Keeps-pure seen false
      retry_fetch-Keeps offset rows count true =
          Keeps-bind _ _ seen (outside-Keeps v _ (h.sleeps _)) λ u. k _ _ _

      after_fetch-Keeps :
          (offset rows count : ℕ) (r : Caught (List (Row P)))
          → Keeps seen (after_fetch self table ms again offset rows count r)
      unfolding after_fetch
      after_fetch-Keeps offset rows count (raised e) =
          Keeps-bind _ _ seen (h.logs _ _ _) λ u. retry_fetch-Keeps offset rows count _
      after_fetch-Keeps offset rows count (returned []) =
          Keeps-bind _ _ seen (h.logs _ _ _) λ u. Keeps-pure seen true
      after_fetch-Keeps offset rows count (returned (row ∷ batch)) =
          Keeps-bind _ _ seen (store_batch-Keeps table ms (row ∷ batch))
            λ b. after_store-Keeps offset rows _ b

    copy_loop-Keeps :
        (table : String) (ms : List ColumnMapping) (fuel offset rows count : ℕ)
        → Keeps seen (copy_loop self table ms fuel offset rows count)
    unfolding copy_loop fetch
    copy_loop-Keeps table ms zero offset rows count = record { at = λ s. refl }
    copy_loop-Keeps table ms (suc fuel) offset rows count =
        Keeps-bind _ _ seen (Keeps-caught seen _ (outside-Keeps v _ (h.fetches _ _ _ _))) λ r.
          after_fetch-Keeps table ms (copy_loop self table ms fuel) (copy_loop-Keeps table ms fuel)
            offset rows count r

    ensure_table-Keeps : (t : MigrationTablePlan) (b : Bool) → Keeps seen (ensure_table self t b)
    unfolding ensure_table after_create
    ensure_table-Keeps t false = Keeps-pure seen true
    ensure_table-Keeps t true =
        Keeps-bind _ _ seen
          (Keeps-caught seen _
            (Keeps-bind _ _ seen (outside-Keeps v _ (h.creates t.source_schema)) λ u. h.logs _ _ _))
          λ r. after r
      where
        after : (r : Caught (Unit {0})) → Keeps seen (after_create self t.table_name r)
        after (returned u) = Keeps-pure seen true
        after (raised e) = Keeps-bind _ _ seen (h.logs _ _ _) λ u. Keeps-pure seen false

    clear_table-Keeps : (table : String) (b : Bool) → Keeps seen (clear_table self table b)
    unfolding clear_table after_truncate
    clear_table-Keeps table false = Keeps-pure seen tt
    clear_table-Keeps table true =
        Keeps-bind _ _ seen
          (Keeps-caught seen _
            (Keeps-bind _ _ seen (outside-Keeps v _ (h.truncates table)) λ u. h.logs _ _ _))
          λ r. after r
      where
        after : (r : Caught (Unit {0})) → Keeps seen (after_truncate self table r)
        after (returned u) = Keeps-pure seen tt
        after (raised e) = h.logs _ _ _

    copy_table-Keeps :
        (fuel : ℕ) (t : MigrationTablePlan) (b : Bool) → Keeps seen (copy_table self fuel t b)
    unfolding copy_table
    copy_table-Keeps fuel t false = Keeps-bind _ _ seen (h.logs _ _ _) λ u. Keeps-pure seen true
    copy_table-Keeps fuel t true = copy_loop-Keeps t.table_name t.column_mappings fuel 0 0 0

    after_ensure-Keeps :
        (fuel : ℕ) (t : MigrationTablePlan) (b : Bool) → Keeps seen (after_ensure self fuel t b)
    unfolding after_ensure
    after_ensure-Keeps fuel t false = Keeps-pure seen false
    after_ensure-Keeps fuel t true =
        Keeps-bind _ _ seen (clear_table-Keeps t.table_name self.settings.truncate_destination)
          λ u. copy_table-Keeps fuel t self.settings.include_data

    migrate_table-Keeps :
        (fuel : ℕ) (t : MigrationTablePlan) → Keeps seen (migrate_table self fuel t)
    unfolding migrate_table
    migrate_table-Keeps fuel t = Keeps-bind _ _ seen (h.logs _ _ _) λ u.
        Keeps-bind _ _ seen (ensure_table-Keeps t self.settings.include_schema)
          λ b. after_ensure-Keeps fuel t b

    module _ (fuel : ℕ) (again : Results → Act (State W) Results)
        (k : (r : Results) → Keeps seen (again r)) where
      after_failure-Keeps : (r : Results) (b : Bool) → Keeps seen (after_failure self again r b)
      unfolding after_failure
      after_failure-Keeps r true = k r
      after_failure-Keeps r false = Keeps-pure seen r

      after_table-Keeps :
          (table : String) (r : Results) (b : Bool) → Keeps seen (after_table self again table r b)
      unfolding after_table
      after_table-Keeps table r true = k _
      after_table-Keeps table r false = after_failure-Keeps _ self.settings.continue_on_error

      run_table-Keeps :
          (t : MigrationTablePlan) (r : Results) (status : TableStatus)
          → Keeps seen (run_table self fuel again t r status)
      unfolding run_table log_skip
      run_table-Keeps t r TableStatus.skipped = Keeps-bind _ _ seen (h.logs _ _ _) λ u. k _
      run_table-Keeps t r TableStatus.pending =
          Keeps-bind _ _ seen (migrate_table-Keeps fuel t) λ b. after_table-Keeps t.table_name r b

    run_tables-Keeps :
        (fuel : ℕ) (ts : List MigrationTablePlan) (r : Results)
        → Keeps seen (run_tables self fuel ts r)
    unfolding run_tables
    run_tables-Keeps fuel [] r = Keeps-pure seen r
    run_tables-Keeps fuel (t ∷ ts) r =
        run_table-Keeps fuel (run_tables self fuel ts) (run_tables-Keeps fuel ts) t r t.status

    -- A run leaves alone what each of its calls leaves alone.
    pub run-Keeps : (fuel : ℕ) (plan : MigrationPlan) → Keeps seen (run self fuel plan)
    unfolding run
    run-Keeps fuel plan =
        Keeps-bind (run_tables self fuel plan.tables empty_results) (set_total self) seen
          (run_tables-Keeps fuel plan.tables empty_results) λ r. record { at = λ s. refl }
