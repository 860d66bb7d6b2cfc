-- ===== src/Migration/Executor/Finishes.antt =====
-- app/migration/executor.py: a whole run comes to its end.
use migrate_app_backend.Base.{
  ℕ, ◌+◌, ◌-◌, ◌*◌, ◌<◌, String, Option, Bool, true, false, List, [], ◌∷◌, ◌≡◌, arith,
}
use migrate_app_backend.Base.Effect.{Act, Caught, returned, raised}
use migrate_app_backend.Base.Calls.{Terminates, Terminates-pure, Terminates-caught, Terminates-bind}
use migrate_app_backend.Schemas.Migration.{
  ColumnMapping, TableSchema, TableStatus, MigrationTablePlan, MigrationPlan,
}
use migrate_app_backend.Migration.Value.{Python}
use migrate_app_backend.Migration.Executor.{
  State, MigrationExecutor, Results, empty_results, max_retries, log, after_create, ensure_table,
  after_truncate, clear_table, copy_table, after_ensure, migrate_table, after_failure, after_table,
  log_skip, run_table, run_tables, set_total, run,
}
use migrate_app_backend.Migration.Executor.Ends.{
  IsResponsive, copy_loop-Terminates, outside-Terminates,
}

module _ {P : Python} {W : Type 0} (self : MigrationExecutor P W) where
  -- Every call that a run makes comes back, and no table has a row at or after `size`.
  pub record IsLive (size : ℕ) : Type 0 where
    pub loops : (t : String) (ms : List ColumnMapping) → IsResponsive self t ms size
    pub creates : (t : TableSchema) → Terminates (self.destination.create_table t)
    pub truncates : (t : String) → Terminates (self.destination.truncate_table t)
    pub logs : (level text : String) (t : Option String) → Terminates (log self level text t)

  module _ {size : ℕ} (h : IsLive size) (fuel : ℕ)
      (enough : size * (max_retries self + 1) + max_retries self < fuel) where
    ensure_table-Terminates :
        (t : MigrationTablePlan) (b : Bool) → Terminates (ensure_table self t b)
    unfolding ensure_table after_create
    ensure_table-Terminates t false = Terminates-pure true
    ensure_table-Terminates t true =
        Terminates-bind _ _
          (Terminates-caught _ (
            Terminates-bind _ _ (outside-Terminates _ (h.creates t.source_schema))
              λ u. h.logs _ _ _))
          after
      where
        after : (r : Caught (Unit {0})) → Terminates (after_create self t.table_name r)
        after (returned u) = Terminates-pure true
        after (raised e) = Terminates-bind _ _ (h.logs _ _ _) λ u. Terminates-pure false

    clear_table-Terminates : (table : String) (b : Bool) → Terminates (clear_table self table b)
    unfolding clear_table after_truncate
    clear_table-Terminates table false = Terminates-pure tt
    clear_table-Terminates table true =
        Terminates-bind _ _
          (Terminates-caught _
            (Terminates-bind _ _ (outside-Terminates _ (h.truncates table)) λ u. h.logs _ _ _))
          after
      where
        after : (r : Caught (Unit {0})) → Terminates (after_truncate self table r)
        after (returned u) = Terminates-pure tt
        after (raised e) = h.logs _ _ _

    copy_table-Terminates :
        (t : MigrationTablePlan) (b : Bool) → Terminates (copy_table self fuel t b)
    unfolding copy_table
    copy_table-Terminates t false = Terminates-bind _ _ (h.logs _ _ _) λ u. Terminates-pure true
    copy_table-Terminates t true =
        let rows : size - 0 ≡ size = omega arith in
        let retries : max_retries self - 0 ≡ max_retries self = omega arith in
        copy_loop-Terminates self t.table_name t.column_mappings
          (h.loops t.table_name t.column_mappings) fuel 0 0 0 (rw (rows, retries) enough)

    after_ensure-Terminates :
        (t : MigrationTablePlan) (b : Bool) → Terminates (after_ensure self fuel t b)
    unfolding after_ensure
    after_ensure-Terminates t false = Terminates-pure false
    after_ensure-Terminates t true =
        Terminates-bind _ _ (clear_table-Terminates t.table_name self.settings.truncate_destination)
          λ u. copy_table-Terminates t self.settings.include_data

    migrate_table-Terminates : (t : MigrationTablePlan) → Terminates (migrate_table self fuel t)
    unfolding migrate_table
    migrate_table-Terminates t = Terminates-bind _ _ (h.logs _ _ _) λ u.
        Terminates-bind _ _ (ensure_table-Terminates t self.settings.include_schema)
          (after_ensure-Terminates t)

    module _ (again : Results → Act (State W) Results)
        (k : (r : Results) → Terminates (again r)) where
      after_failure-Terminates :
          (r : Results) (b : Bool) → Terminates (after_failure self again r b)
      unfolding after_failure
      after_failure-Terminates r true = k r
      after_failure-Terminates r false = Terminates-pure r

      after_table-Terminates :
          (table : String) (r : Results) (b : Bool) → Terminates (after_table self again table r b)
      unfolding after_table
      after_table-Terminates table r true = k _
      after_table-Terminates table r false =
          after_failure-Terminates _ self.settings.continue_on_error

      run_table-Terminates :
          (t : MigrationTablePlan) (r : Results) (status : TableStatus)
          → Terminates (run_table self fuel again t r status)
      unfolding run_table log_skip
      run_table-Terminates t r TableStatus.skipped = Terminates-bind _ _ (h.logs _ _ _) λ u. k _
      run_table-Terminates t r TableStatus.pending =
          Terminates-bind _ _ (migrate_table-Terminates t) (after_table-Terminates t.table_name r)

    run_tables-Terminates :
        (ts : List MigrationTablePlan) (r : Results) → Terminates (run_tables self fuel ts r)
    unfolding run_tables
    run_tables-Terminates [] r = Terminates-pure r
    run_tables-Terminates (t ∷ ts) r =
        run_table-Terminates (run_tables self fuel ts) (run_tables-Terminates ts) t r t.status

    -- If every call comes back (`IsLive`), then with more fuel than the rounds of the longest table's
    -- copy loop, a run of any plan ends with a report or an exception.
    pub run-Terminates : (plan : MigrationPlan) → Terminates (run self fuel plan)
    unfolding run
    run-Terminates plan =
        Terminates-bind (run_tables self fuel plan.tables empty_results) (set_total self)
          (run_tables-Terminates plan.tables empty_results) λ r. record { at = λ s p. cc }
