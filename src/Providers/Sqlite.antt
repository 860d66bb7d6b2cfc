-- ===== src/Providers/Sqlite.antt =====
-- app/providers/sqlite_provider.py, over the connection that aiosqlite gives.
use migrate_app_backend.Base.{
  ℕ, String, Option, none, some, Bool, not, ◌&&◌, List, [], ◌∷◌, map, length, str_eq, if◌then◌else◌,
  ltb, ◌==◌,
}
use migrate_app_backend.Base.Text.{◌<>◌, join, upper, lower, before_paren, strip}
use migrate_app_backend.Base.Dict.{Dict, lookup}
use migrate_app_backend.Base.Effect.{Act, pure, ◌>>=◌, ◌>>◌}
use migrate_app_backend.Schemas.Migration.{ColumnSchema, TableSchema}
use migrate_app_backend.Migration.Value.{Python, Row}
use migrate_app_backend.Providers.Lifecycle
use migrate_app_backend.Providers.Lifecycle.{Held, Library}
use migrate_app_backend.Providers.Stream.{stream_from}
use migrate_app_backend.Providers.Sql.{
  Driver, connected, quoted, quoted_names, selected, null_clause, key_clause, columns_or_keys,
  values_of, records_of, repeated, or_zero,
}

-- `_SQLITE_AFFINITY_MAP`
abbrev pub affinity_map : Dict String
affinity_map =
    ("integer", "INTEGER")
    ∷ ("int", "INTEGER")
    ∷ ("tinyint", "SMALLINT")
    ∷ ("smallint", "SMALLINT")
    ∷ ("mediumint", "INTEGER")
    ∷ ("bigint", "BIGINT")
    ∷ ("real", "FLOAT")
    ∷ ("float", "FLOAT")
    ∷ ("double", "DOUBLE")
    ∷ ("numeric", "DECIMAL")
    ∷ ("decimal", "DECIMAL")
    ∷ ("text", "TEXT")
    ∷ ("varchar", "VARCHAR")
    ∷ ("character", "VARCHAR")
    ∷ ("char", "CHAR")
    ∷ ("clob", "TEXT")
    ∷ ("blob", "BLOB")
    ∷ ("boolean", "BOOLEAN")
    ∷ ("date", "DATE")
    ∷ ("datetime", "DATETIME")
    ∷ ("timestamp", "TIMESTAMP")
    ∷ ("json", "JSON")
    ∷ []

-- a row of `PRAGMA table_info`: its name, type, notnull, dflt_value and pk
pub record ColumnInfo : Type 0 where
  pub name : String
  pub type : String
  pub notnull : Bool
  pub dflt_value : Option String
  pub pk : Bool

abbrev pub mapped_or : String → Option String → String
mapped_or type none = if str_eq type "" then "TEXT" else upper type
mapped_or type (some t) = t

unfoldable pub mapped_type : String → String
mapped_type type = mapped_or type (lookup (strip (before_paren (lower type))) affinity_map)

-- the column that a round of the loop of `get_table_schema` appends
unfoldable pub column_of : ColumnInfo → ColumnSchema
unfolding mapped_type
column_of row = record {
  name = row.name;
  data_type = mapped_type row.type;
  is_nullable = not row.notnull;
  is_primary_key = row.pk;
  default = row.dflt_value;
  max_length = none;
  precision = none;
  scale = none;
  enum_values = none;
}

-- the loop of `get_table_schema`: `columns` and `pks`
unfoldable pub read_columns : List ColumnInfo → List ColumnSchema × List String
unfolding column_of
read_columns [] = ([], [])
read_columns (row ∷ rows) =
    let (columns, pks) = read_columns rows in
    (column_of row ∷ columns, if row.pk then row.name ∷ pks else pks)

-- the definition of a column in `create_table`
unfoldable pub column_def : TableSchema → ColumnSchema → String
column_def schema col =
    quoted "\"" col.name
    <> " "
    <> col.data_type
    <> null_clause col
    <> (if col.is_primary_key && length schema.primary_keys == 1 then " PRIMARY KEY" else "")

-- the statement of `create_table`
unfoldable pub create_statement : TableSchema → String
unfolding column_def
create_statement schema =
    "CREATE TABLE IF NOT EXISTS "
    <> quoted "\"" schema.name
    <> " ("
    <> join ", " (map (column_def schema) schema.columns)
    <> (if ltb 1 (length schema.primary_keys) then key_clause "\"" schema.primary_keys else "")
    <> ")"

unfoldable pub insert_statement : String → List String → String
insert_statement table_name cols =
    "INSERT OR IGNORE INTO "
    <> quoted "\"" table_name
    <> " ("
    <> quoted_names "\"" cols
    <> ") VALUES ("
    <> join ", " (repeated "?" cols)
    <> ")"

module _ {P : Python} {W : Type 0} (conn : Option (Driver P W ColumnInfo)) where
  -- `get_tables`
  unfoldable pub get_tables : Act W (List String)
  get_tables = do c ← connected conn; c.tables

  -- `get_row_count`
  unfoldable pub get_row_count : String → Act W ℕ
  get_row_count table_name = do
    c ← connected conn
    n ← c.count ("SELECT COUNT(*) FROM " <> quoted "\"" table_name)
    pure (or_zero n)

  -- `get_table_schema`
  unfoldable pub get_table_schema : String → Act W TableSchema
  unfolding read_columns get_row_count
  get_table_schema table_name = do
    c ← connected conn
    info_rows ← c.columns table_name
    row_count ← get_row_count table_name
    pure (record {
      name = table_name;
      columns = (read_columns info_rows).0;
      primary_keys = (read_columns info_rows).1;
      row_count = row_count;
    })

  -- `fetch_batch`
  unfoldable pub fetch_batch : String → ℕ → ℕ → Option (List String) → Act W (List (Row P))
  fetch_batch table_name offset limit columns = do
    c ← connected conn
    c.fetchall
        ("SELECT "
          <> selected "\"" columns
          <> " FROM "
          <> quoted "\"" table_name
          <> " LIMIT ? OFFSET ?")
        limit offset

  -- `stream_table`
  unfoldable pub stream_table :
      String → ℕ → Option (List String) → (List (Row P) → Act W (Unit {0})) → ℕ → Act W (Unit {0})
  unfolding fetch_batch
  stream_table table_name batch_size columns each fuel =
      stream_from (λ offset. fetch_batch table_name offset batch_size columns) each batch_size fuel
        0

  -- `create_table`
  unfoldable pub create_table : TableSchema → Act W (Unit {0})
  unfolding create_statement
  create_table schema = do c ← connected conn; c.execute (create_statement schema); c.commit

  -- `insert_batch`
  unfoldable pub insert_batch : String → List (Row P) → Option (List String) → Act W ℕ
  unfolding insert_statement
  insert_batch table_name [] columns = pure 0
  insert_batch table_name (row ∷ rows) columns = do
    c ← connected conn
    let cols = columns_or_keys columns row
    c.executemany (insert_statement table_name cols) (records_of cols (row ∷ rows))
    c.commit
    pure (length (row ∷ rows))

  -- `truncate_table`
  unfoldable pub truncate_table : String → Act W (Unit {0})
  truncate_table table_name = do
    c ← connected conn
    c.execute ("DELETE FROM " <> quoted "\"" table_name)
    c.commit

  -- `table_exists`
  unfoldable pub table_exists : String → Act W Bool
  table_exists table_name = do c ← connected conn; c.exists table_name

  -- `execute_query`
  unfoldable pub execute_query : String → Option (Row P) → Act W (List (Row P))
  execute_query sql params = do c ← connected conn; c.query sql (values_of params)

module _ {P : Python} {W : Type 0} (library : Library P W ColumnInfo) where
  -- `connect`
  unfoldable pub connect : Act (Held P W ColumnInfo) (Unit {0})
  connect = Lifecycle.connect_file library

  -- `disconnect`
  unfoldable pub disconnect : Act (Held P W ColumnInfo) (Unit {0})
  disconnect = Lifecycle.disconnect library

  -- `test_connection`
  unfoldable pub test_connection : Act W (Bool × String × P.Float)
  test_connection = Lifecycle.test_connection library
