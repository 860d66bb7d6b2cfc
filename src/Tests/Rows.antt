-- ===== src/Tests/Rows.antt =====
-- app/migration/mapper.py on concrete rows, after tests/unit/test_mapper.py.
use migrate_app_backend.Base.{◌≡◌, refl, List, [], ◌∷◌, some, true, ok}
use migrate_app_backend.Base.Int.{pos}
use migrate_app_backend.Base.Text.{upper, lower, before_paren}
use migrate_app_backend.Base.Dict.{lookup, insert}
use migrate_app_backend.Schemas.Columns.{columns_by_name}
use migrate_app_backend.Migration.Value.{Row, int, bool, str}
use migrate_app_backend.Migration.Mapper.{
  build_column_mappings, column_mapping, active_mappings, apply_mappings, map_rows, map_row, coerce,
  coerce_to, coerce_by, coerce_boolean, coerce_integer, coerce_text,
}
use migrate_app_backend.Migration.Mapper.Coerced.{Coerced}
use migrate_app_backend.Migration.Mapper.Rows.{
  HasUniqueDests, Pointwise, IsImage, apply_mappings-IsImage,
}
use migrate_app_backend.Migration.Mapper.Build.{Arrives, apply_mappings-Arrives}
use migrate_app_backend.Tests.Fixtures.{python, users, ids, two_users}

coerce_yes_test : coerce python (str "YES") "boolean" ≡ ok (bool true)
unfolding coerce coerce_to coerce_by coerce_boolean upper lower before_paren
coerce_yes_test = refl

-- the column that both tables have, of the two rows
abbrev two_ids : List (Row python)
two_ids = (("id", int (pos 1)) ∷ []) ∷ (("id", int (pos 2)) ∷ []) ∷ []

apply_mappings_test :
    apply_mappings python two_users (build_column_mappings users (some ids)) ≡ ok two_ids
unfolding apply_mappings map_rows map_row active_mappings build_column_mappings column_mapping
    lookup insert columns_by_name coerce coerce_to coerce_by coerce_text coerce_boolean
    coerce_integer upper before_paren
apply_mappings_test = refl

mappings-HasUniqueDests : HasUniqueDests (build_column_mappings users (some ids))
unfolding build_column_mappings column_mapping
mappings-HasUniqueDests = (refl, (refl, tt))

apply_mappings-IsImage_example :
    Pointwise (IsImage python (build_column_mappings users (some ids))) two_users two_ids
apply_mappings-IsImage_example =
    apply_mappings-IsImage python two_users two_ids (build_column_mappings users (some ids))
      mappings-HasUniqueDests apply_mappings_test

apply_mappings-Arrives_example : Pointwise (Arrives python users ids) two_users two_ids
apply_mappings-Arrives_example =
    apply_mappings-Arrives python users ids (refl, (refl, tt)) (refl, (refl, tt)) two_users two_ids
      apply_mappings_test
