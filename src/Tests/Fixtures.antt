-- ===== src/Tests/Fixtures.antt =====
-- A small pair of databases in memory, in the manner of tests/unit, and a migration between them.
use migrate_app_backend.Base.{
  ℕ, String, ◌+◌, none, true, false, List, [], ◌∷◌, ◌++◌, take, drop, length, ok,
}
use migrate_app_backend.Base.Int.{pos}
use migrate_app_backend.Base.Effect.{Act, pure}
use migrate_app_backend.Core.Constants.{MigrationStatus}
use migrate_app_backend.Schemas.Migration.{ColumnSchema, TableSchema}
use migrate_app_backend.Migration.Value.{Python, Row, int, str}
use migrate_app_backend.Providers.{Provider}
use migrate_app_backend.Migration.Executor.{MigrationExecutor}
use migrate_app_backend.Models.{Migration, Database}

abbrev pub python : Python
python = record {
  Float = Unit {0};
  Json = Unit {0};
  Other = Unit {0};
  int_of_float = λ x. ok (pos 7);
  dumps = λ x. ok "{}";
}

abbrev pub column : String → String → ColumnSchema
column n t = record {
  name = n;
  data_type = t;
  is_nullable = true;
  is_primary_key = false;
  default = none;
  max_length = none;
  precision = none;
  scale = none;
  enum_values = none;
}

abbrev pub users : TableSchema
users = record {
  name = "users";
  columns = column "id" "INTEGER" ∷ column "email" "TEXT" ∷ [];
  primary_keys = "id" ∷ [];
  row_count = 2;
}

-- a table with one of the columns, of another type of its family
abbrev pub ids : TableSchema
ids = record {
  name = "users";
  columns = column "id" "BIGINT" ∷ column "note" "TEXT" ∷ [];
  primary_keys = "id" ∷ [];
  row_count = 0;
}

abbrev pub user : ℕ → String → Row python
user n e = ("id", int (pos n)) ∷ ("email", str e) ∷ []

abbrev pub two_users : List (Row python)
two_users = user 1 "a@b" ∷ user 2 "c@d" ∷ []

-- the destination's rows, and the calls of `insert_batch`
pub record World : Type 0 where
  pub rows : List (Row python)
  pub tries : ℕ

abbrev pub empty_world : World
empty_world = record { rows = []; tries = 0 }

abbrev pub insert_rows : List (Row python) → Act World ℕ
insert_rows batch w = (ok (length batch), record { rows = w.rows ++ batch; tries = w.tries + 1 })

-- both databases: the source serves two users, the destination stores what is inserted
abbrev pub memory : Provider python World
memory = record {
  connect = pure tt;
  disconnect = pure tt;
  test_connection = pure (true, "ok", tt);
  get_tables = pure ("users" ∷ []);
  get_table_schema = λ t. pure users;
  get_row_count = λ t. pure 2;
  fetch_batch = λ t offset limit columns. pure (take limit (drop offset two_users));
  create_table = λ t. pure tt;
  insert_batch = λ t batch. insert_rows batch;
  truncate_table = λ t. pure tt;
  table_exists = λ t. pure true;
}

abbrev pub executor : MigrationExecutor python World
executor = record {
  source = memory;
  destination = memory;
  settings = record {
    include_schema = true;
    include_data = true;
    batch_size = 1;
    truncate_destination = false;
    continue_on_error = false;
    max_retries = 1;
  };
  on_progress = none;
  on_log = none;
  sleep = λ n. pure tt;
}

abbrev pub pending_migration : Migration
pending_migration = record {
  status = MigrationStatus.pending;
  source_connection = "src";
  destination_connection = "dst";
  tables_config = none;
  migration_plan = none;
  settings = none;
  total_tables = 1;
  completed_tables = 0;
  total_rows = 2;
  processed_rows = 0;
  current_table = none;
  started_at = none;
  completed_at = none;
  celery_task_id = none;
  error_message = none;
}

abbrev pub database : Database
database = record {
  migrations = ("m1", pending_migration) ∷ [];
  logs = [];
  queued = [];
  revoked = [];
}
