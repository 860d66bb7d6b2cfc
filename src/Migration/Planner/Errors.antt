-- ===== src/Migration/Planner/Errors.antt =====
-- When `build_plan` raises.
use migrate_app_backend.Base.{
  String, ◌≡◌, refl, Option, Bool, true, false, List, [], ◌∷◌, Exception, Result, ok, raise,
  out_of_fuel, is_ok,
}
use migrate_app_backend.Base.Effect.{Caught, returned, raised}
use migrate_app_backend.Base.Calls.{
  Terminates-pure, Terminates-bind, Terminates-caught, Terminates-of_Returns, Returns, Terminates,
  Returns-pure, Returns-bind, Returns-caught, Returns-lift,
}
use migrate_app_backend.Schemas.Migration.{TableSchema, MigrationPlan}
use migrate_app_backend.Migration.Value.{Python}
use migrate_app_backend.Migration.Validator.Raises.{is_checked, validate-is_checked}
use migrate_app_backend.Providers.{Provider}
use migrate_app_backend.Migration.Planner.{
  after_validation, read_destination, read_known, keep_schema, plan_read, plan_table, plan_tables,
  build_plan,
}

pub after_validation-is_ok :
    (name : String) (src : TableSchema) (dst : Option TableSchema) (r : Result (List String))
    (plan : MigrationPlan)
    → is_checked r ≡ true
    → is_ok (after_validation name src dst r plan) ≡ true
unfolding after_validation
after_validation-is_ok name src dst (ok ws) plan h = refl
after_validation-is_ok name src dst (raise (Exception.schema_incompatible m)) plan h = refl
after_validation-is_ok name src dst (raise (Exception.value_error m)) plan h = cc
after_validation-is_ok name src dst (raise (Exception.not_implemented m)) plan h = cc
after_validation-is_ok name src dst (raise (Exception.type_error m)) plan h = cc
after_validation-is_ok name src dst (raise (Exception.http_not_found m)) plan h = cc
after_validation-is_ok name src dst (raise (Exception.soft_time_limit m)) plan h = cc
after_validation-is_ok name src dst (raise (Exception.other_error m)) plan h = cc
after_validation-is_ok name src dst out_of_fuel plan h = cc

-- What `build_plan` needs of a pair of providers: the test whether a table exists does not raise,
-- and the calls come back.
pub record IsAnswering {P : Python} {W : Type 0} (source destination : Provider P W) : Type 0 where
  pub source_schema : (t : String) → Terminates (source.get_table_schema t)
  pub destination_schema : (t : String) → Terminates (destination.get_table_schema t)
  pub exists : (t : String) → Returns (destination.table_exists t)

module _ {P : Python} {W : Type 0} (source destination : Provider P W)
    (answers : IsAnswering source destination) where
  read_destination-Returns : (t : String) → Returns (read_destination source destination t)
  unfolding read_destination
  read_destination-Returns t = Returns-bind _ _ (answers.exists t) known
    where
      kept : (read : Caught TableSchema) → Returns (keep_schema source destination t read)
      kept (returned s) = Returns-pure _
      kept (raised e) = Returns-pure _

      known : (b : Bool) → Returns (read_known source destination t b)
      known false = Returns-pure _
      known true = Returns-bind _ _ (Returns-caught _ (answers.destination_schema t)) kept

  plan_read-Returns :
      (t : String) (plan : MigrationPlan) (read : Caught TableSchema)
      → Returns (plan_read source destination t plan read)
  unfolding plan_read
  plan_read-Returns t plan (raised e) = Returns-pure _
  plan_read-Returns t plan (returned src) = Returns-bind _ _ (read_destination-Returns t) λ found.
      Returns-lift _ (after_validation-is_ok t src found.0 _ _ (validate-is_checked src found.0))

  plan_tables-Returns :
      (names : List String) (plan : MigrationPlan)
      → Returns (plan_tables source destination names plan)
  unfolding plan_tables plan_table
  plan_tables-Returns [] plan = Returns-pure plan
  plan_tables-Returns (t ∷ names) plan =
      Returns-bind _ _
        (Returns-bind _ _ (Returns-caught _ (answers.source_schema t)) (plan_read-Returns t plan))
        (plan_tables-Returns names)

  -- `build_plan` returns a plan, whatever tables are asked for, and whatever reading a schema raises
  -- and the validation of the schemas refuses, if the calls come back and the test whether a
  -- destination table exists does not raise.
  pub build_plan-Returns : (names : List String) → Returns (build_plan source destination names)
  unfolding build_plan
  build_plan-Returns names = plan_tables-Returns names _

module _ {P : Python} {W : Type 0} (source destination : Provider P W)
    (exists : (t : String) → Terminates (destination.table_exists t))
    (source_schema : (t : String) → Terminates (source.get_table_schema t))
    (destination_schema : (t : String) → Terminates (destination.get_table_schema t)) where
  read_known-Terminates : (t : String) (b : Bool) → Terminates (read_known source destination t b)
  unfolding read_known keep_schema
  read_known-Terminates t false = Terminates-pure _
  read_known-Terminates t true =
      Terminates-bind _ _ (Terminates-caught _ (destination_schema t)) kept
    where
      kept : (read : Caught TableSchema) → Terminates (keep_schema source destination t read)
      kept (returned s) = Terminates-pure _
      kept (raised e) = Terminates-pure _

  plan_read-Terminates :
      (t : String) (plan : MigrationPlan) (read : Caught TableSchema)
      → Terminates (plan_read source destination t plan read)
  unfolding plan_read read_destination
  plan_read-Terminates t plan (raised e) = Terminates-pure _
  plan_read-Terminates t plan (returned src) =
      Terminates-bind _ _ (Terminates-bind _ _ (exists t) (read_known-Terminates t)) λ found.
        Terminates-of_Returns _ (
          Returns-lift _
            (after_validation-is_ok t src found.0 _ _ (validate-is_checked src found.0)))

  plan_tables-Terminates :
      (names : List String) (plan : MigrationPlan)
      → Terminates (plan_tables source destination names plan)
  unfolding plan_tables plan_table
  plan_tables-Terminates [] plan = Terminates-pure plan
  plan_tables-Terminates (t ∷ names) plan =
      Terminates-bind _ _
        (Terminates-bind _ _ (Terminates-caught _ (source_schema t)) (plan_read-Terminates t plan))
        (plan_tables-Terminates names)

  -- Planning comes back if each of its calls does.
  pub build_plan-Terminates :
      (names : List String) → Terminates (build_plan source destination names)
  unfolding build_plan
  build_plan-Terminates names = plan_tables-Terminates names _
