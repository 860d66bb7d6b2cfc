-- ===== src/Migration/Planner/Succeeds.antt =====
-- app/migration/planner.py: a plan is built from databases whose calls succeed, and an invariant of
-- their state is kept.
use migrate_app_backend.Base.{String, Option, Bool, true, false, List, [], ◌∷◌}
use migrate_app_backend.Base.Yields.{Yields, Any, Yields-pure, Yields-lift, Yields-bind, Yields-try}
use migrate_app_backend.Schemas.Migration.{TableSchema, MigrationPlan}
use migrate_app_backend.Migration.Value.{Python}
use migrate_app_backend.Migration.Validator.Raises.{validate-is_checked}
use migrate_app_backend.Providers.{Provider}
use migrate_app_backend.Migration.Planner.{
  validate_table, keep_schema, read_destination, read_known, plan_read, plan_table, plan_tables,
  build_plan,
}
use migrate_app_backend.Migration.Planner.Errors.{after_validation-is_ok}

module _ {P : Python} {W : Type 0} (I : W → Type 0) (source destination : Provider P W)
    (source_schema : (t : String) → Yields I Any (source.get_table_schema t))
    (destination_schema : (t : String) → Yields I Any (destination.get_table_schema t))
    (exists : (t : String) → Yields I Any (destination.table_exists t)) where
  read_known-Yields : (t : String) (b : Bool) → Yields I Any (read_known source destination t b)
  unfolding read_known keep_schema
  read_known-Yields t false = Yields-pure I Any _ tt
  read_known-Yields t true =
      Yields-try I Any Any (destination.get_table_schema t) _ (destination_schema t)
        (λ schema q. Yields-pure I Any _ tt)

  validate_table-Yields :
      (t : String) (plan : MigrationPlan) (src : TableSchema)
      (found : Option TableSchema × List String)
      → Yields I Any (validate_table source destination t plan src found)
  unfolding validate_table
  validate_table-Yields t plan src found =
      Yields-lift I _ (after_validation-is_ok t src found.0 _ _ (validate-is_checked src found.0))

  plan_table-Yields :
      (t : String) (plan : MigrationPlan) → Yields I Any (plan_table source destination t plan)
  unfolding plan_table plan_read read_destination
  plan_table-Yields t plan =
      Yields-try I Any Any (source.get_table_schema t) _ (source_schema t) (λ src q.
        Yields-bind I Any Any (read_destination source destination t) _
          (Yields-bind I Any Any (destination.table_exists t) _ (exists t)
            (λ b p. read_known-Yields t b))
          (λ found p. validate_table-Yields t plan src found))

  plan_tables-Yields :
      (names : List String) (plan : MigrationPlan)
      → Yields I Any (plan_tables source destination names plan)
  unfolding plan_tables
  plan_tables-Yields [] plan = Yields-pure I Any plan tt
  plan_tables-Yields (t ∷ names) plan =
      Yields-bind I Any Any (plan_table source destination t plan) _ (plan_table-Yields t plan)
        (λ plan' q. plan_tables-Yields names plan')

  pub build_plan-Yields : (names : List String) → Yields I Any (build_plan source destination names)
  unfolding build_plan
  build_plan-Yields names = plan_tables-Yields names _
