-- ===== src/Tests/Schemas.antt =====
-- app/migration/validator.py and app/migration/planner.py on concrete schemas.
use migrate_app_backend.Base.{◌≡◌, refl, ◌↔◌, String, List, [], ◌∷◌, some, true, ok, is_ok}
use migrate_app_backend.Base.Dict.{lookup, insert}
use migrate_app_backend.Base.Text.{upper, before_paren}
use migrate_app_backend.Base.Calls.{Returns, Returns-pure, Terminates-pure}
use migrate_app_backend.Schemas.Migration.{MigrationPlan}
use migrate_app_backend.Schemas.Columns.{HasUniqueNames, columns_by_name}
use migrate_app_backend.Migration.Validator.{
  validate_schema_compatibility, check_source_columns, check_source_column, check_dest_columns,
  check_dest_column, family, family_from, family_clash, no_default, no_columns,
}
use migrate_app_backend.Migration.Validator.Loops.{Compatible}
use migrate_app_backend.Migration.Validator.Accepts.{accepts_iff}
use migrate_app_backend.Migration.Planner.{
  build_plan, plan_tables, plan_table, plan_read, read_destination, read_known, keep_schema,
  validate_table, after_validation, pending_table,
}
use migrate_app_backend.Migration.Planner.Plan.{IsPlanFor, build_plan-IsPlanFor}
use migrate_app_backend.Migration.Planner.Errors.{IsAnswering, build_plan-Returns}
use migrate_app_backend.Tests.Fixtures.{users, ids, memory, empty_world}

ids-HasUniqueNames : HasUniqueNames ids.columns
ids-HasUniqueNames = (refl, (refl, tt))

accepts_iff_example :
    ((ws : List String) × (validate_schema_compatibility users (some ids) ≡ ok ws))
    ↔ Compatible users ids
accepts_iff_example = accepts_iff users ids ids-HasUniqueNames

accepted_test : is_ok (validate_schema_compatibility users (some ids)) ≡ true
unfolding validate_schema_compatibility check_source_columns check_source_column check_dest_columns
    check_dest_column columns_by_name family_from family family_clash no_default no_columns lookup
    insert upper before_paren
accepted_test = refl

memory-IsAnswering : IsAnswering memory memory
memory-IsAnswering = record {
  source_schema = λ t. Terminates-pure users;
  destination_schema = λ t. Terminates-pure users;
  exists = λ t. Returns-pure _;
}

build_plan-Returns_example : Returns (build_plan memory memory ("users" ∷ []))
build_plan-Returns_example = build_plan-Returns memory memory memory-IsAnswering ("users" ∷ [])

-- what planning the table `users` gives
abbrev users_plan : MigrationPlan
users_plan = record {
  tables = pending_table "users" users (some users) ∷ [];
  total_rows = 2;
  warnings = [];
}

build_plan_test : build_plan memory memory ("users" ∷ []) empty_world ≡ (ok users_plan, empty_world)
unfolding build_plan plan_tables plan_table plan_read read_destination read_known keep_schema
    validate_table after_validation validate_schema_compatibility check_source_columns
    check_source_column check_dest_columns check_dest_column columns_by_name family_from family
    family_clash no_default no_columns lookup insert upper before_paren pending_table
build_plan_test = refl

build_plan-IsPlanFor_example : IsPlanFor ("users" ∷ []) users_plan
build_plan-IsPlanFor_example =
    build_plan-IsPlanFor memory memory ("users" ∷ []) users_plan empty_world empty_world
      build_plan_test
