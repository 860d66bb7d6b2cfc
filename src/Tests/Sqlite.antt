-- ===== src/Tests/Sqlite.antt =====
-- app/providers/sqlite_provider.py over a catalogue with one table.
use migrate_app_backend.Base.{String, none, some, Bool, true, false, [], ◌∷◌, ◌≡◌, refl, ok}
use migrate_app_backend.Base.Text.{lower, before_paren, strip, lstrip, rstrip, is_blank}
use migrate_app_backend.Base.Dict.{lookup}
use migrate_app_backend.Base.Effect.{pure}
use migrate_app_backend.Schemas.Migration.{TableSchema}
use migrate_app_backend.Providers.Sql.{Driver, key_names}
use migrate_app_backend.Providers.Sqlite.{
  ColumnInfo, affinity_map, get_table_schema, get_row_count, read_columns, column_of, mapped_type,
}
use migrate_app_backend.Providers.Keys.{get_table_schema_keys}
use migrate_app_backend.Tests.Fixtures.{python, column}

abbrev info : String → String → Bool → ColumnInfo
info n t k = record { name = n; type = t; notnull = false; dflt_value = none; pk = k }

abbrev catalogue : Driver python (Unit {0}) ColumnInfo
catalogue = record {
  execute = λ sql. pure tt;
  executemany = λ sql records. pure tt;
  commit = pure tt;
  count = λ sql. pure (some 5);
  fetchall = λ sql limit offset. pure [];
  query = λ sql values. pure [];
  tables = pure ("users" ∷ []);
  columns = λ t. pure (info "id" "int" true ∷ info "name" "varchar(20)" false ∷ []);
  exists = λ t. pure true;
}

abbrev read_schema : TableSchema
read_schema = record {
  name = "users";
  columns = record (column "id" "INTEGER") { is_primary_key = true } ∷ column "name" "VARCHAR" ∷ [];
  primary_keys = "id" ∷ [];
  row_count = 5;
}

get_table_schema_test : get_table_schema (some catalogue) "users" tt ≡ (ok read_schema, tt)
unfolding get_table_schema get_row_count read_columns column_of mapped_type lookup lower
    before_paren strip lstrip rstrip is_blank
get_table_schema_test = refl

get_table_schema_keys_example :
    (read_schema.name ≡ "users") × (read_schema.primary_keys ≡ key_names read_schema.columns)
get_table_schema_keys_example =
    get_table_schema_keys (some catalogue) "users" read_schema tt tt get_table_schema_test

lookup_tinyint_test : lookup "tinyint" affinity_map ≡ some "SMALLINT"
unfolding lookup
lookup_tinyint_test = refl
