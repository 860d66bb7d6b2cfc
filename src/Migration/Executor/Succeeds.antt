-- ===== src/Migration/Executor/Succeeds.antt =====
-- app/migration/executor.py: a whole run between two databases whose calls succeed in every state
-- for which an invariant holds, and keep it.
use migrate_app_backend.Base.{
  ℕ, ◌<◌, String, Option, Bool, true, false, List, [], ◌∷◌, ◌++◌, ◌≡◌, refl, sym, ◌∙◌, All, arith,
  ok,
}
use migrate_app_backend.Base.Effect.{Act, ◌>>=◌}
use migrate_app_backend.Base.Yields.{Yields, Any, Yields-pure, Yields-bind, Yields-try}
use mathlib.Core.Path.{subst}
use mathlib.Core.List.{append-nil, append_assoc}
use migrate_app_backend.Schemas.Migration.{
  TableSchema, TableStatus, MigrationTablePlan, MigrationPlan,
}
use migrate_app_backend.Migration.Value.{Python}
use migrate_app_backend.Migration.Executor.{
  State, MigrationExecutor, Results, empty_results, outside, log, after_create, ensure_table,
  after_truncate, clear_table, copy_table, after_ensure, migrate_table, after_table, log_skip,
  run_table, run_tables, run,
}
use migrate_app_backend.Migration.Executor.Visits.{pending_names, skipped_names}
use migrate_app_backend.Migration.Executor.Completes.{
  IsTrue, Holds, Yields-outside, IsLogging, log-Yields, IsReliable, copy_loop_completes,
}

-- the results after a table that was copied or skipped
abbrev listed : MigrationTablePlan → TableStatus → Results → Results
listed t TableStatus.pending r = record r {
  completed_tables = r.completed_tables ++ t.table_name ∷ [];
}
listed t TableStatus.skipped r = record r { skipped_tables = r.skipped_tables ++ t.table_name ∷ [] }

abbrev all_listed : List MigrationTablePlan → Results → Results
all_listed [] r = r
all_listed (t ∷ ts) r = all_listed ts (listed t t.status r)

module _ {P : Python} {W : Type 0} (self : MigrationExecutor P W) (I : W → Type 0) (size : ℕ) where
  -- Every call of the copy loop of a pending table succeeds; a skipped one is not copied.
  abbrev pub IsCopyable : TableStatus → MigrationTablePlan → Type 0
  IsCopyable TableStatus.pending t = IsReliable self I t.table_name t.column_mappings size
  IsCopyable TableStatus.skipped t = Unit

  -- Every call of a run of these tables succeeds, and no table has a row at or after `size`.
  pub record IsRunnable (tables : List MigrationTablePlan) : Type 0 where
    pub loops : All (λ (t : MigrationTablePlan). IsCopyable t.status t) tables
    pub creates : (t : TableSchema) → Yields I Any (self.destination.create_table t)
    pub truncates : (t : String) → Yields I Any (self.destination.truncate_table t)
    pub logging : IsLogging self I

  module _ (fuel : ℕ) (enough : size < fuel)
      (creates : (t : TableSchema) → Yields I Any (self.destination.create_table t))
      (truncates : (t : String) → Yields I Any (self.destination.truncate_table t))
      (logging : IsLogging self I) where
    logged_after :
        (m : Act W (Unit {0})) (level text : String) (t : Option String)
        → Yields I Any m
        → Yields (Holds I) Any (outside m >>= λ u. log self level text t)
    logged_after m level text t h =
        Yields-bind (Holds I) Any Any (outside m) _ (Yields-outside I Any m h)
          (λ u q. log-Yields self I logging level text t)

    ensure_table-Yields :
        (t : MigrationTablePlan) (b : Bool) → Yields (Holds I) IsTrue (ensure_table self t b)
    unfolding ensure_table after_create
    ensure_table-Yields t false = Yields-pure (Holds I) IsTrue true refl
    ensure_table-Yields t true =
        Yields-try (Holds I) Any IsTrue _ _ (logged_after _ _ _ _ (creates t.source_schema))
          (λ u q. Yields-pure (Holds I) IsTrue true refl)

    clear_table-Yields :
        (table : String) (b : Bool) → Yields (Holds I) Any (clear_table self table b)
    unfolding clear_table after_truncate
    clear_table-Yields table false = Yields-pure (Holds I) Any tt tt
    clear_table-Yields table true =
        Yields-try (Holds I) Any Any _ _ (logged_after _ _ _ _ (truncates table))
          (λ u q. Yields-pure (Holds I) Any tt tt)

    module _ (t : MigrationTablePlan) where
      copy_table-Yields :
          IsCopyable TableStatus.pending t
          → (b : Bool) → Yields (Holds I) IsTrue (copy_table self fuel t b)
      unfolding copy_table
      copy_table-Yields h false =
          Yields-bind (Holds I) Any IsTrue (log self _ _ _) _ (log-Yields self I logging _ _ _)
            (λ u q. Yields-pure (Holds I) IsTrue true refl)
      copy_table-Yields h true =
          copy_loop_completes self I t.table_name t.column_mappings h logging fuel 0 0 0
            (omega arith)

      after_ensure-Yields :
          IsCopyable TableStatus.pending t
          → (b : Bool) → b ≡ true
          → Yields (Holds I) IsTrue (after_ensure self fuel t b)
      unfolding after_ensure
      after_ensure-Yields h false e = cc
      after_ensure-Yields h true e =
          Yields-bind (Holds I) Any IsTrue (clear_table self _ _) _
            (clear_table-Yields t.table_name self.settings.truncate_destination)
            (λ u q. copy_table-Yields h self.settings.include_data)

      migrate_table-Yields :
          IsCopyable TableStatus.pending t → Yields (Holds I) IsTrue (migrate_table self fuel t)
      unfolding migrate_table
      migrate_table-Yields h =
          Yields-bind (Holds I) Any IsTrue (log self _ _ _) _ (log-Yields self I logging _ _ _)
            (λ u q.
              Yields-bind (Holds I) IsTrue IsTrue (ensure_table self t _) _
                (ensure_table-Yields t self.settings.include_schema) (after_ensure-Yields h))

      module _ (again : Results → Act (State W) Results) (r end : Results) where
        after_table-Yields :
            Yields (Holds I) (λ x. x ≡ end) (again (listed t TableStatus.pending r))
            → (b : Bool) → b ≡ true
            → Yields (Holds I) (λ x. x ≡ end) (after_table self again t.table_name r b)
        unfolding after_table
        after_table-Yields k false e = cc
        after_table-Yields k true e = k

        run_table-Yields :
            (status : TableStatus)
            → IsCopyable status t
            → Yields (Holds I) (λ x. x ≡ end) (again (listed t status r))
            → Yields (Holds I) (λ x. x ≡ end) (run_table self fuel again t r status)
        unfolding run_table log_skip
        run_table-Yields TableStatus.skipped h k =
            Yields-bind (Holds I) Any (λ x. x ≡ end) (log self _ _ _) _
              (log-Yields self I logging _ _ _) (λ u q. k)
        run_table-Yields TableStatus.pending h k =
            Yields-bind (Holds I) IsTrue (λ x. x ≡ end) (migrate_table self fuel t) _
              (migrate_table-Yields h) (after_table-Yields k)

    run_tables-Yields :
        (ts : List MigrationTablePlan) (r : Results)
        → All (λ (t : MigrationTablePlan). IsCopyable t.status t) ts
        → Yields (Holds I) (λ x. x ≡ all_listed ts r) (run_tables self fuel ts r)
    unfolding run_tables
    run_tables-Yields [] r h = Yields-pure (Holds I) (λ x. x ≡ r) r refl
    run_tables-Yields (t ∷ ts) r h =
        run_table-Yields t (run_tables self fuel ts) r _ t.status h.0
          (run_tables-Yields ts (listed t t.status r) h.1)

-- Results list these tables behind what `r` lists, and no further table has failed.
abbrev IsListed : List String → List String → Results → Results → Type 0
IsListed completed skipped r end =
    (end.completed_tables ≡ r.completed_tables ++ completed)
    × (end.skipped_tables ≡ r.skipped_tables ++ skipped)
    × (end.failed_tables ≡ r.failed_tables)

all_listed-IsListed :
    (ts : List MigrationTablePlan) (r : Results)
    → IsListed (pending_names ts) (skipped_names ts) r (all_listed ts r)
all_listed-IsListed [] r =
    (sym (append-nil r.completed_tables), sym (append-nil r.skipped_tables), refl)
all_listed-IsListed (t ∷ ts) r = by_status t.status (all_listed-IsListed ts)
  where
    by_status :
        (status : TableStatus)
        → ((r' : Results) → IsListed (pending_names ts) (skipped_names ts) r' (all_listed ts r'))
        → IsListed
            (elim status [
              | TableStatus.pending ↦ t.table_name ∷ pending_names ts
              | TableStatus.skipped ↦ pending_names ts
            ])
            (elim status [
              | TableStatus.skipped ↦ t.table_name ∷ skipped_names ts
              | TableStatus.pending ↦ skipped_names ts
            ])
            r
            (all_listed ts (listed t status r))
    by_status TableStatus.pending k =
        let (c, s, f) = k (listed t TableStatus.pending r) in
        (c ∙ append_assoc r.completed_tables (t.table_name ∷ []) _, s, f)
    by_status TableStatus.skipped k =
        let (c, s, f) = k (listed t TableStatus.skipped r) in
        (c, s ∙ append_assoc r.skipped_tables (t.table_name ∷ []) _, f)

-- exactly the plan's pending tables are completed and its skipped ones skipped, in the order of the
-- plan, and no table has failed
abbrev pub IsComplete : MigrationPlan → Results → Type 0
IsComplete plan results =
    (results.completed_tables ≡ pending_names plan.tables)
    × (results.skipped_tables ≡ skipped_names plan.tables)
    × (results.failed_tables ≡ [])

module _ {P : Python} {W : Type 0} (self : MigrationExecutor P W) (I : W → Type 0) (size fuel : ℕ)
    (plan : MigrationPlan) (h : IsRunnable self I size plan.tables) (enough : size < fuel) where
  pub run-Yields : Yields (Holds I) (IsComplete plan) (run self fuel plan)
  unfolding run
  run-Yields =
      Yields-bind (Holds I) (λ x. x ≡ all_listed plan.tables empty_results) (IsComplete plan)
        (run_tables self fuel plan.tables empty_results) _
        (run_tables-Yields self I size fuel enough h.creates h.truncates h.logging plan.tables
          empty_results h.loops)
        (λ r e. record {
          at = λ s i. (record r { total_rows_migrated = s.total }, refl, complete r e, i);
        })
    where
      complete : (r : Results) → r ≡ all_listed plan.tables empty_results → IsComplete plan r
      complete r e = subst (IsComplete plan) (sym e) (all_listed-IsListed plan.tables empty_results)

-- Between databases whose calls all succeed in the states for which an invariant holds, and keep it,
-- where no table has a row at or after `size` and no batch fails to be transformed, a run with more
-- fuel than `size` that starts in such a state returns results in which exactly the plan's pending
-- tables are completed and its skipped ones skipped, in the order of the plan, and no table has
-- failed; the invariant holds at its end.
pub run_completes :
    {P : Python} {W : Type 0} (self : MigrationExecutor P W) (I : W → Type 0) (size fuel : ℕ)
    (plan : MigrationPlan) (s : State W)
    → IsRunnable self I size plan.tables
    → size < fuel
    → I s.world
    → (results : Results) × ((run self fuel plan s).0 ≡ ok results)
      × IsComplete plan results
      × I (run self fuel plan s).1.world
run_completes self I size fuel plan s h enough i =
    (run-Yields self I size fuel plan h enough).at s i
