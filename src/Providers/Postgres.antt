-- ===== src/Providers/Postgres.antt =====
-- app/providers/postgres_provider.py, over the pool that asyncpg gives.
use migrate_app_backend.Base.{
  ℕ, ◌+◌, String, Option, none, some, Bool, true, false, List, [], ◌∷◌, map, length, str_eq, ltb,
}
use migrate_app_backend.Base.Text.{◌<>◌, join, show}
use migrate_app_backend.Base.Dict.{Dict, lookup}
use migrate_app_backend.Base.Effect.{Act, pure, ◌>>=◌, ◌>>◌}
use migrate_app_backend.Schemas.Migration.{ColumnSchema, TableSchema}
use migrate_app_backend.Migration.Value.{Python, Row}
use migrate_app_backend.Providers.Lifecycle
use migrate_app_backend.Providers.Lifecycle.{Held, Library}
use migrate_app_backend.Providers.Stream.{stream_from}
use migrate_app_backend.Providers.Sql.{
  Driver, connected, quoted, quoted_names, selected, null_clause, sized_type, key_clause, key_names,
  columns_or_keys, values_of, records_of, or_zero,
}

-- `_PG_TYPE_MAP`
abbrev pub type_map : Dict String
type_map =
    ("int2", "SMALLINT")
    ∷ ("int4", "INTEGER")
    ∷ ("int8", "BIGINT")
    ∷ ("float4", "FLOAT")
    ∷ ("float8", "DOUBLE PRECISION")
    ∷ ("numeric", "NUMERIC")
    ∷ ("bool", "BOOLEAN")
    ∷ ("text", "TEXT")
    ∷ ("varchar", "VARCHAR")
    ∷ ("bpchar", "CHAR")
    ∷ ("bytea", "BYTEA")
    ∷ ("date", "DATE")
    ∷ ("time", "TIME")
    ∷ ("timetz", "TIMETZ")
    ∷ ("timestamp", "TIMESTAMP")
    ∷ ("timestamptz", "TIMESTAMPTZ")
    ∷ ("interval", "INTERVAL")
    ∷ ("uuid", "UUID")
    ∷ ("json", "JSON")
    ∷ ("jsonb", "JSONB")
    ∷ ("array", "TEXT")
    ∷ []

-- a row of the query of `information_schema.columns`
pub record CatalogueColumn : Type 0 where
  pub column_name : String
  pub data_type : String
  pub is_nullable : String
  pub column_default : Option String
  pub character_maximum_length : Option ℕ
  pub numeric_precision : Option ℕ
  pub numeric_scale : Option ℕ
  pub is_pk : Bool

abbrev pub mapped_or : String → Option String → String
mapped_or type none = type
mapped_or type (some t) = t

-- a member of the list `columns` in `get_table_schema`
unfoldable pub column_of : Dict (List String) → CatalogueColumn → ColumnSchema
column_of enum_map r = record {
  name = r.column_name;
  data_type = mapped_or r.data_type (lookup r.data_type type_map);
  is_nullable = str_eq r.is_nullable "YES";
  is_primary_key = r.is_pk;
  default = r.column_default;
  max_length = r.character_maximum_length;
  precision = r.numeric_precision;
  scale = r.numeric_scale;
  enum_values = lookup r.data_type enum_map;
}

-- only a type that is no enum takes a size
abbrev pub type_with_size : ColumnSchema → Option (List String) → String
type_with_size col none = sized_type col
type_with_size col (some labels) = col.data_type

unfoldable pub column_def : ColumnSchema → String
column_def col =
    quoted "\"" col.name <> " " <> type_with_size col col.enum_values <> null_clause col

-- the statement of `create_table`
unfoldable pub create_statement : TableSchema → String
unfolding column_def
create_statement schema =
    "CREATE TABLE IF NOT EXISTS "
    <> quoted "\"" schema.name
    <> " ("
    <> join ", " (map column_def schema.columns)
    <> key_clause "\"" schema.primary_keys
    <> ")"

-- the statement that makes the enum of a column
unfoldable pub enum_statement : ColumnSchema → List String → String
enum_statement col labels =
    "DO $$ BEGIN   IF NOT EXISTS (SELECT 1 FROM pg_type WHERE typname = '"
    <> col.data_type
    <> "') THEN     CREATE TYPE "
    <> col.data_type
    <> " AS ENUM ("
    <> quoted_names "'" labels
    <> ");   END IF; END $$"

-- `$i`, `$i+1`, …, one for each column
unfoldable pub placeholders : ℕ → List String → List String
placeholders i [] = []
placeholders i (c ∷ cols) = ("$" <> show i) ∷ placeholders (i + 1) cols

unfoldable pub insert_statement : String → List String → String
unfolding placeholders
insert_statement table_name cols =
    "INSERT INTO "
    <> quoted "\"" table_name
    <> " ("
    <> quoted_names "\"" cols
    <> ") VALUES ("
    <> join ", " (placeholders 1 cols)
    <> ") ON CONFLICT DO NOTHING"

module _ {P : Python} {W : Type 0} (pool : Option (Driver P W CatalogueColumn))
    (enums : Act W (Dict (List String))) (estimate : String → Act W (Option ℕ)) where
  -- `enums` is the query of `pg_enum`, and `estimate` that of `pg_class`, where an estimate below 0
  -- counts as none.

  -- `get_tables`
  unfoldable pub get_tables : Act W (List String)
  get_tables = do c ← connected pool; c.tables

  count_rows : Driver P W CatalogueColumn → String → Act W ℕ
  count_rows c table_name = do
    n ← c.count ("SELECT COUNT(*) FROM " <> quoted "\"" table_name)
    pure (or_zero n)

  -- `if row and row["n"] > 10000`
  unfoldable pub estimate_or_count : Driver P W CatalogueColumn → String → Bool → ℕ → Act W ℕ
  unfolding count_rows
  estimate_or_count c table_name true n = pure n
  estimate_or_count c table_name false n = count_rows c table_name

  -- `get_row_count`
  unfoldable pub get_row_count : String → Act W ℕ
  unfolding estimate_or_count
  get_row_count table_name = do
    c ← connected pool
    n ← estimate table_name
    estimate_or_count c table_name (ltb 10000 (or_zero n)) (or_zero n)

  -- `get_table_schema`
  unfoldable pub get_table_schema : String → Act W TableSchema
  unfolding column_of get_row_count
  get_table_schema table_name = do
    c ← connected pool
    col_rows ← c.columns table_name
    enum_map ← enums
    row_count ← get_row_count table_name
    pure (record {
      name = table_name;
      columns = map (column_of enum_map) col_rows;
      primary_keys = key_names (map (column_of enum_map) col_rows);
      row_count = row_count;
    })

  -- the first loop of `create_table`
  unfoldable pub create_enums : Driver P W CatalogueColumn → List ColumnSchema → Act W (Unit {0})
  unfolding enum_statement
  create_enums c [] = pure tt
  create_enums c (col ∷ cols) = create_enum col.enum_values >> create_enums c cols
    where
      create_enum : Option (List String) → Act W (Unit {0})
      create_enum none = pure tt
      create_enum (some labels) = c.execute (enum_statement col labels)

  -- `create_table`
  unfoldable pub create_table : TableSchema → Act W (Unit {0})
  unfolding create_enums create_statement
  create_table schema = do
    c ← connected pool
    create_enums c schema.columns
    c.execute (create_statement schema)

  -- `fetch_batch`
  unfoldable pub fetch_batch : String → ℕ → ℕ → Option (List String) → Act W (List (Row P))
  fetch_batch table_name offset limit columns = do
    c ← connected pool
    c.fetchall
        ("SELECT "
          <> selected "\"" columns
          <> " FROM "
          <> quoted "\"" table_name
          <> " LIMIT $1 OFFSET $2")
        limit offset

  -- `stream_table`
  unfoldable pub stream_table :
      String → ℕ → Option (List String) → (List (Row P) → Act W (Unit {0})) → ℕ → Act W (Unit {0})
  unfolding fetch_batch
  stream_table table_name batch_size columns each fuel = do
    _ ← connected pool
    stream_from (λ offset. fetch_batch table_name offset batch_size columns) each batch_size fuel 0

  -- `insert_batch`
  unfoldable pub insert_batch : String → List (Row P) → Option (List String) → Act W ℕ
  unfolding insert_statement
  insert_batch table_name [] columns = pure 0
  insert_batch table_name (row ∷ rows) columns = do
    c ← connected pool
    let cols = columns_or_keys columns row
    c.executemany (insert_statement table_name cols) (records_of cols (row ∷ rows))
    pure (length (row ∷ rows))

  -- `truncate_table`
  unfoldable pub truncate_table : String → Act W (Unit {0})
  truncate_table table_name = do
    c ← connected pool
    c.execute ("TRUNCATE TABLE " <> quoted "\"" table_name <> " RESTART IDENTITY CASCADE")

  -- `table_exists`
  unfoldable pub table_exists : String → Act W Bool
  table_exists table_name = do c ← connected pool; c.exists table_name

  -- `execute_query`
  unfoldable pub execute_query : String → Option (Row P) → Act W (List (Row P))
  execute_query sql params = do c ← connected pool; c.query sql (values_of params)

module _ {P : Python} {W : Type 0} (library : Library P W CatalogueColumn) where
  -- `connect`
  unfoldable pub connect : Act (Held P W CatalogueColumn) (Unit {0})
  connect = Lifecycle.connect_pool library

  -- `disconnect`
  unfoldable pub disconnect : Act (Held P W CatalogueColumn) (Unit {0})
  disconnect = Lifecycle.disconnect library

  -- `test_connection`
  unfoldable pub test_connection : Act W (Bool × String × P.Float)
  test_connection = Lifecycle.test_connection library
