-- ===== src/Providers/Classes.antt =====
-- The classes `SQLiteProvider`, `MySQLProvider` and `PostgresProvider` of app/providers as databases of
-- the interface: each method reads the connection or the pool that the provider keeps.
pub mod Closed
use migrate_app_backend.Base.{ℕ, String, Option, none, List}
use migrate_app_backend.Base.Dict.{Dict}
use migrate_app_backend.Base.Effect.{Act}
use migrate_app_backend.Migration.Value.{Python}
use migrate_app_backend.Providers.{Provider}
use migrate_app_backend.Providers.Lifecycle.{Held, Library, attached, in_world}
use migrate_app_backend.Providers.Sqlite
use migrate_app_backend.Providers.Mysql
use migrate_app_backend.Providers.Postgres

-- `SQLiteProvider`
unfoldable pub sqlite_provider :
    {P : Python} {W : Type 0}
    → Library P W Sqlite.ColumnInfo
    → Provider P (Held P W Sqlite.ColumnInfo)
sqlite_provider library = record {
  connect = Sqlite.connect library;
  disconnect = Sqlite.disconnect library;
  test_connection = in_world (Sqlite.test_connection library);
  get_tables = attached Sqlite.get_tables;
  get_table_schema = λ t. attached (λ c. Sqlite.get_table_schema c t);
  get_row_count = λ t. attached (λ c. Sqlite.get_row_count c t);
  fetch_batch =
      λ t offset limit columns. attached (λ c. Sqlite.fetch_batch c t offset limit columns);
  create_table = λ schema. attached (λ c. Sqlite.create_table c schema);
  insert_batch = λ t rows. attached (λ c. Sqlite.insert_batch c t rows none);
  truncate_table = λ t. attached (λ c. Sqlite.truncate_table c t);
  table_exists = λ t. attached (λ c. Sqlite.table_exists c t);
}

-- `MySQLProvider`
unfoldable pub mysql_provider :
    {P : Python} {W : Type 0}
    → Library P W Mysql.CatalogueColumn
    → Provider P (Held P W Mysql.CatalogueColumn)
mysql_provider library = record {
  connect = Mysql.connect library;
  disconnect = Mysql.disconnect library;
  test_connection = in_world (Mysql.test_connection library);
  get_tables = attached Mysql.get_tables;
  get_table_schema = λ t. attached (λ c. Mysql.get_table_schema c t);
  get_row_count = λ t. attached (λ c. Mysql.get_row_count c t);
  fetch_batch =
      λ t offset limit columns. attached (λ c. Mysql.fetch_batch c t offset limit columns);
  create_table = λ schema. attached (λ c. Mysql.create_table c schema);
  insert_batch = λ t rows. attached (λ c. Mysql.insert_batch c t rows none);
  truncate_table = λ t. attached (λ c. Mysql.truncate_table c t);
  table_exists = λ t. attached (λ c. Mysql.table_exists c t);
}

-- `PostgresProvider`, with its queries of `pg_enum` and of `pg_class`
unfoldable pub postgres_provider :
    {P : Python} {W : Type 0}
    → Library P W Postgres.CatalogueColumn
    → (enums : Act W (Dict (List String))) → (estimate : String → Act W (Option ℕ))
    → Provider P (Held P W Postgres.CatalogueColumn)
postgres_provider library enums estimate = record {
  connect = Postgres.connect library;
  disconnect = Postgres.disconnect library;
  test_connection = in_world (Postgres.test_connection library);
  get_tables = attached (λ c. Postgres.get_tables c enums estimate);
  get_table_schema = λ t. attached (λ c. Postgres.get_table_schema c enums estimate t);
  get_row_count = λ t. attached (λ c. Postgres.get_row_count c enums estimate t);
  fetch_batch = λ t offset limit columns.
      attached (λ c. Postgres.fetch_batch c enums estimate t offset limit columns);
  create_table = λ schema. attached (λ c. Postgres.create_table c enums estimate schema);
  insert_batch = λ t rows. attached (λ c. Postgres.insert_batch c enums estimate t rows none);
  truncate_table = λ t. attached (λ c. Postgres.truncate_table c enums estimate t);
  table_exists = λ t. attached (λ c. Postgres.table_exists c enums estimate t);
}
