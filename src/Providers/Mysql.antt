-- ===== src/Providers/Mysql.antt =====
-- app/providers/mysql_provider.py, over the pool that aiomysql gives, which commits by itself.
use migrate_app_backend.Base.{
  ℕ, String, Option, none, some, Bool, List, [], ◌∷◌, map, length, str_eq,
}
use migrate_app_backend.Base.Text.{◌<>◌, join, upper, lower}
use migrate_app_backend.Base.Dict.{Dict, lookup}
use migrate_app_backend.Base.Effect.{Act, pure, ◌>>=◌, ◌>>◌}
use migrate_app_backend.Schemas.Migration.{ColumnSchema, TableSchema}
use migrate_app_backend.Migration.Value.{Python, Row}
use migrate_app_backend.Providers.Lifecycle
use migrate_app_backend.Providers.Lifecycle.{Held, Library}
use migrate_app_backend.Providers.Stream.{stream_from}
use migrate_app_backend.Providers.Sql.{
  Driver, connected, quoted, quoted_names, selected, null_clause, sized_type, key_clause, key_names,
  columns_or_keys, values_of, records_of, repeated, or_zero,
}

-- `_MYSQL_TYPE_MAP`
abbrev pub type_map : Dict String
type_map =
    ("tinyint", "TINYINT")
    ∷ ("smallint", "SMALLINT")
    ∷ ("mediumint", "MEDIUMINT")
    ∷ ("int", "INT")
    ∷ ("bigint", "BIGINT")
    ∷ ("float", "FLOAT")
    ∷ ("double", "DOUBLE")
    ∷ ("decimal", "DECIMAL")
    ∷ ("numeric", "DECIMAL")
    ∷ ("char", "CHAR")
    ∷ ("varchar", "VARCHAR")
    ∷ ("tinytext", "TINYTEXT")
    ∷ ("text", "TEXT")
    ∷ ("mediumtext", "MEDIUMTEXT")
    ∷ ("longtext", "LONGTEXT")
    ∷ ("tinyblob", "TINYBLOB")
    ∷ ("blob", "BLOB")
    ∷ ("mediumblob", "MEDIUMBLOB")
    ∷ ("longblob", "LONGBLOB")
    ∷ ("date", "DATE")
    ∷ ("time", "TIME")
    ∷ ("datetime", "DATETIME")
    ∷ ("timestamp", "TIMESTAMP")
    ∷ ("year", "YEAR")
    ∷ ("bool", "BOOLEAN")
    ∷ ("boolean", "BOOLEAN")
    ∷ ("bit", "BIT")
    ∷ ("json", "JSON")
    ∷ ("enum", "VARCHAR")
    ∷ ("set", "VARCHAR")
    ∷ []

-- a row of the query of `information_schema.COLUMNS`, with its names in lower case
pub record CatalogueColumn : Type 0 where
  pub column_name : String
  pub data_type : String
  pub is_nullable : String
  pub column_default : Option String
  pub character_maximum_length : Option ℕ
  pub numeric_precision : Option ℕ
  pub numeric_scale : Option ℕ
  pub column_key : String

abbrev pub mapped_or : String → Option String → String
mapped_or type none = upper type
mapped_or type (some t) = t

-- a member of the list `columns` in `get_table_schema`
unfoldable pub column_of : CatalogueColumn → ColumnSchema
column_of r = record {
  name = r.column_name;
  data_type = mapped_or r.data_type (lookup (lower r.data_type) type_map);
  is_nullable = str_eq r.is_nullable "YES";
  is_primary_key = str_eq r.column_key "PRI";
  default = r.column_default;
  max_length = r.character_maximum_length;
  precision = r.numeric_precision;
  scale = r.numeric_scale;
  enum_values = none;
}

unfoldable pub column_def : ColumnSchema → String
column_def col = quoted "`" col.name <> " " <> sized_type col <> null_clause col

-- the statement of `create_table`
unfoldable pub create_statement : TableSchema → String
unfolding column_def
create_statement schema =
    "CREATE TABLE IF NOT EXISTS "
    <> quoted "`" schema.name
    <> " ("
    <> join ", " (map column_def schema.columns)
    <> key_clause "`" schema.primary_keys
    <> ") ENGINE=InnoDB DEFAULT CHARSET=utf8mb4"

unfoldable pub insert_statement : String → List String → String
insert_statement table_name cols =
    "INSERT IGNORE INTO "
    <> quoted "`" table_name
    <> " ("
    <> quoted_names "`" cols
    <> ") VALUES ("
    <> join ", " (repeated "%s" cols)
    <> ")"

module _ {P : Python} {W : Type 0} (pool : Option (Driver P W CatalogueColumn)) where
  -- `get_tables`
  unfoldable pub get_tables : Act W (List String)
  get_tables = do c ← connected pool; c.tables

  -- `get_row_count`
  unfoldable pub get_row_count : String → Act W ℕ
  get_row_count table_name = do
    c ← connected pool
    n ← c.count ("SELECT COUNT(*) AS n FROM " <> quoted "`" table_name)
    pure (or_zero n)

  -- `get_table_schema`
  unfoldable pub get_table_schema : String → Act W TableSchema
  unfolding column_of get_row_count
  get_table_schema table_name = do
    c ← connected pool
    col_rows ← c.columns table_name
    row_count ← get_row_count table_name
    pure (record {
      name = table_name;
      columns = map column_of col_rows;
      primary_keys = key_names (map column_of col_rows);
      row_count = row_count;
    })

  -- `fetch_batch`
  unfoldable pub fetch_batch : String → ℕ → ℕ → Option (List String) → Act W (List (Row P))
  fetch_batch table_name offset limit columns = do
    c ← connected pool
    c.fetchall
        ("SELECT "
          <> selected "`" columns
          <> " FROM "
          <> quoted "`" table_name
          <> " LIMIT %s OFFSET %s")
        limit offset

  -- `stream_table`
  unfoldable pub stream_table :
      String → ℕ → Option (List String) → (List (Row P) → Act W (Unit {0})) → ℕ → Act W (Unit {0})
  unfolding fetch_batch
  stream_table table_name batch_size columns each fuel =
      stream_from (λ offset. fetch_batch table_name offset batch_size columns) each batch_size fuel
        0

  -- `create_table`
  unfoldable pub create_table : TableSchema → Act W (Unit {0})
  unfolding create_statement
  create_table schema = do c ← connected pool; c.execute (create_statement schema)

  -- `insert_batch`
  unfoldable pub insert_batch : String → List (Row P) → Option (List String) → Act W ℕ
  unfolding insert_statement
  insert_batch table_name [] columns = pure 0
  insert_batch table_name (row ∷ rows) columns = do
    c ← connected pool
    let cols = columns_or_keys columns row
    c.executemany (insert_statement table_name cols) (records_of cols (row ∷ rows))
    pure (length (row ∷ rows))

  -- `truncate_table`
  unfoldable pub truncate_table : String → Act W (Unit {0})
  truncate_table table_name = do
    c ← connected pool
    c.execute ("TRUNCATE TABLE " <> quoted "`" table_name)

  -- `table_exists`
  unfoldable pub table_exists : String → Act W Bool
  table_exists table_name = do c ← connected pool; c.exists table_name

  -- `execute_query`
  unfoldable pub execute_query : String → Option (Row P) → Act W (List (Row P))
  execute_query sql params = do c ← connected pool; c.query sql (values_of params)

module _ {P : Python} {W : Type 0} (library : Library P W CatalogueColumn) where
  -- `connect`
  unfoldable pub connect : Act (Held P W CatalogueColumn) (Unit {0})
  connect = Lifecycle.connect_pool library

  -- `disconnect`
  unfoldable pub disconnect : Act (Held P W CatalogueColumn) (Unit {0})
  disconnect = Lifecycle.disconnect library

  -- `test_connection`
  unfoldable pub test_connection : Act W (Bool × String × P.Float)
  test_connection = Lifecycle.test_connection library
