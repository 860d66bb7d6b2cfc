-- ===== src/Migration/Executor/Run.antt =====
-- What `MigrationExecutor.run` reports.
use migrate_app_backend.Base.{
  ℕ, ◌≡◌, refl, sym, ap, ◌∙◌, Bool, true, false, List, [], ◌∷◌, ◌++◌, Result, ok,
}
use migrate_app_backend.Base.Effect.{Act, bind-eq-ok, ok-injective}
use migrate_app_backend.Schemas.Migration.{MigrationTablePlan, MigrationPlan, TableStatus}
use migrate_app_backend.Migration.Value.{Python}
use migrate_app_backend.Migration.Executor.{
  State, MigrationExecutor, Results, log_skip, migrate_table, after_failure, after_table, run_table,
  run_tables, set_total, run, empty_results,
}
use migrate_app_backend.Migration.Executor.Visits.{
  Visits, visit_skipped, visit_completed, visit_failed, visit_last, with_total, visit_none,
}

module _ {P : Python} {W : Type 0} (self : MigrationExecutor P W) (fuel : ℕ) where
  abbrev going_on : Bool
  going_on = self.settings.continue_on_error

  abbrev Continues : (Results → Act (State W) Results) → List MigrationTablePlan → Type 0
  Continues again tables =
      (results after : Results) (s s' : State W)
      → again results s ≡ (ok after, s')
      → Visits going_on tables results after

  module _ (again : Results → Act (State W) Results) (t : MigrationTablePlan)
      (tables : List MigrationTablePlan) (ih : Continues again tables) where
    after_failure-Visits :
        (results after : Results) (c : Bool) (s s' : State W)
        → t.status ≡ TableStatus.pending
        → going_on ≡ c
        → after_failure self again
            (record results { failed_tables = results.failed_tables ++ t.table_name ∷ [] })
            c
            s
          ≡ (ok after, s')
        → Visits going_on (t ∷ tables) results after
    unfolding after_failure
    after_failure-Visits results after true s s' e g h = visit_failed t tables e g (
        ih (record results { failed_tables = results.failed_tables ++ t.table_name ∷ [] }) after s
          s' h)
    after_failure-Visits results after false s s' e g h =
        visit_last t tables e g (sym (ok-injective (ap (λ (p : Result Results × State W). p.0) h)))

    after_table-Visits :
        (results after : Results) (success : Bool) (s s' : State W)
        → t.status ≡ TableStatus.pending
        → after_table self again t.table_name results success s ≡ (ok after, s')
        → Visits going_on (t ∷ tables) results after
    unfolding after_table
    after_table-Visits results after true s s' e h = visit_completed t tables e (
        ih (record results { completed_tables = results.completed_tables ++ t.table_name ∷ [] })
          after s s' h)
    after_table-Visits results after false s s' e h =
        after_failure-Visits results after going_on s s' e refl h

    run_table-Visits :
        (results after : Results) (status : TableStatus) (s s' : State W)
        → t.status ≡ status
        → run_table self fuel again t results status s ≡ (ok after, s')
        → Visits going_on (t ∷ tables) results after
    unfolding run_table
    run_table-Visits results after TableStatus.skipped s s' e h =
        let next = record results {
          skipped_tables = results.skipped_tables ++ t.table_name ∷ [];
        } in
        let (u, z, _, h') =
          bind-eq-ok (log_skip self t.table_name) (λ v. again next) s s' after h in
        visit_skipped t tables e (ih next after z s' h')
    run_table-Visits results after TableStatus.pending s s' e h =
        let (success, z, _, h') =
          bind-eq-ok (migrate_table self fuel t) (after_table self again t.table_name results) s s'
            after h in
        after_table-Visits results after success z s' e h'

  run_tables-Visits :
      (tables : List MigrationTablePlan) → Continues (run_tables self fuel tables) tables
  unfolding run_tables
  run_tables-Visits [] results after s s' h =
      visit_none results after (ok-injective (ap (λ (p : Result Results × State W). p.0) h))
  run_tables-Visits (t ∷ tables) results after s s' h =
      run_table-Visits (run_tables self fuel tables) t tables (run_tables-Visits tables) results
        after t.status s s' refl h

  -- The report of a run that comes to its end accounts for the plan's tables in order, up to the one
  -- after which it stopped: the skipped ones are listed as skipped, every other one was tried and is
  -- listed once, as completed or as failed. It stops before the end of the plan only if it may not go
  -- on after an error and a table failed, and then just one failed. The rows that it reports are the
  -- ones that the executor counted.
  pub run-Visits :
      (plan : MigrationPlan) (results : Results) (s s' : State W)
      → run self fuel plan s ≡ (ok results, s')
      → Visits going_on plan.tables empty_results results × (results.total_rows_migrated ≡ s'.total)
  unfolding run
  run-Visits plan results s s' h =
      let (r, z, e, h') =
        bind-eq-ok (run_tables self fuel plan.tables empty_results) (set_total self) s s' results
          h in
      let same : record r { total_rows_migrated = z.total } ≡ results =
        ok-injective (ap (λ (p : Result Results × State W). p.0) h') in
      let end : z ≡ s' = ap (λ (p : Result Results × State W). p.1) h' in
      (
        rw (← same) (with_total z.total (run_tables-Visits plan.tables empty_results r s z e)),
        ap (λ (q : Results). q.total_rows_migrated) (sym same) ∙ ap (λ (q : State W). q.total) end,
      )
