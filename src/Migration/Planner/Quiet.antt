-- ===== src/Migration/Planner/Quiet.antt =====
-- app/migration/planner.py: what planning leaves alone, if each of its calls does.
use migrate_app_backend.Base.{String, Bool, true, false, List, [], ◌∷◌, refl}
use migrate_app_backend.Base.Effect.{Caught, returned, raised}
use migrate_app_backend.Base.Calls.{Keeps, Keeps-pure, Keeps-bind, Keeps-caught}
use migrate_app_backend.Schemas.Migration.{TableSchema, MigrationPlan}
use migrate_app_backend.Migration.Value.{Python}
use migrate_app_backend.Providers.{Provider}
use migrate_app_backend.Migration.Planner.{
  keep_schema, read_known, read_destination, validate_table, plan_read, plan_table, plan_tables,
  build_plan,
}

module _ {P : Python} {W X : Type 0} (v : W → X) (source destination : Provider P W) where
  pub record IsQuiet : Type 0 where
    pub source_schema : (t : String) → Keeps v (source.get_table_schema t)
    pub destination_schema : (t : String) → Keeps v (destination.get_table_schema t)
    pub exists : (t : String) → Keeps v (destination.table_exists t)

  module _ (h : IsQuiet) where
    keep_schema-Keeps :
        (t : String) (r : Caught TableSchema) → Keeps v (keep_schema source destination t r)
    unfolding keep_schema
    keep_schema-Keeps t (returned s) = Keeps-pure v _
    keep_schema-Keeps t (raised e) = Keeps-pure v _

    read_known-Keeps : (t : String) (b : Bool) → Keeps v (read_known source destination t b)
    unfolding read_known
    read_known-Keeps t false = Keeps-pure v _
    read_known-Keeps t true =
        Keeps-bind _ _ v (Keeps-caught v _ (h.destination_schema t)) λ r. keep_schema-Keeps t r

    plan_read-Keeps :
        (t : String) (plan : MigrationPlan) (r : Caught TableSchema)
        → Keeps v (plan_read source destination t plan r)
    unfolding plan_read read_destination validate_table
    plan_read-Keeps t plan (raised e) = Keeps-pure v _
    plan_read-Keeps t plan (returned s) =
        Keeps-bind _ _ v (Keeps-bind _ _ v (h.exists t) λ b. read_known-Keeps t b)
          λ found. record { at = λ w. refl }

    plan_tables-Keeps :
        (ts : List String) (plan : MigrationPlan) → Keeps v (plan_tables source destination ts plan)
    unfolding plan_tables plan_table
    plan_tables-Keeps [] plan = Keeps-pure v plan
    plan_tables-Keeps (t ∷ ts) plan =
        Keeps-bind _ _ v
          (Keeps-bind _ _ v (Keeps-caught v _ (h.source_schema t)) λ r. plan_read-Keeps t plan r)
          λ plan'. plan_tables-Keeps ts plan'

    -- Planning leaves alone what each of its calls leaves alone.
    pub build_plan-Keeps : (ts : List String) → Keeps v (build_plan source destination ts)
    unfolding build_plan
    build_plan-Keeps ts = plan_tables-Keeps ts _
