-- ===== src/Providers.antt =====
-- app/providers/base_provider.py: the interface that every database implements, over the world that
-- its calls read and change. A method may raise, and the world may have changed when it does.
pub mod Registry
pub mod Session
pub mod Stream
pub mod Lifecycle
pub mod Closes
pub mod Streams
pub mod Classes
pub mod Sql
pub mod Sqlite
pub mod Mysql
pub mod Postgres
pub mod Keys
use migrate_app_backend.Base.{ℕ, String, Bool, List, Option}
use migrate_app_backend.Base.Effect.{Act}
use migrate_app_backend.Schemas.Migration.{TableSchema}
use migrate_app_backend.Migration.Value.{Python, Row}

-- `BaseDatabaseProvider`
pub record Provider (P : Python) (W : Type 0) : Type 0 where
  pub connect : Act W (Unit {0})
  pub disconnect : Act W (Unit {0})
  pub test_connection : Act W (Bool × String × P.Float)
  pub get_tables : Act W (List String)
  pub get_table_schema : String → Act W TableSchema
  pub get_row_count : String → Act W ℕ
  pub fetch_batch : String → ℕ → ℕ → Option (List String) → Act W (List (Row P))
  pub create_table : TableSchema → Act W (Unit {0})
  pub insert_batch : String → List (Row P) → Act W ℕ
  pub truncate_table : String → Act W (Unit {0})
  pub table_exists : String → Act W Bool
