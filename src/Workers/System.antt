-- ===== src/Workers/System.antt =====
-- What the service and a worker's task act on: the world of the databases that it migrates, the application's
-- database, and what it broadcast. The databases that a migration reads and writes are others than
-- the application's own.
pub mod Sessions
use migrate_app_backend.Base.{ℕ, String, List, [], ◌∷◌, ◌++◌, ok}
use migrate_app_backend.Base.Effect.{Act, ◌>>=◌}
use migrate_app_backend.Migration.Value.{Python}
use migrate_app_backend.Models.{Database}
use migrate_app_backend.Providers.{Provider}
use migrate_app_backend.Providers.Session.{opened}
use migrate_app_backend.Utils.Json.{Object}
use migrate_app_backend.Utils.Helpers.{Floats}

pub record System (W : Type 0) : Type 0 where
  pub world : W
  pub db : Database
  -- the broadcasts of `ws_manager`, each with its channel
  pub sent : List (String × Object)

module _ {W : Type 0} where
  -- a call into the migrated databases
  abbrev pub on_world : {A : Type 0} → Act W A → Act (System W) A
  on_world m s = let (r, w) = m s.world in (r, record s { world = w })

  -- a session of the application's database
  abbrev pub on_db : {A : Type 0} → Act Database A → Act (System W) A
  on_db m s = let (r, d) = m s.db in (r, record s { db = d })

  -- `ws_manager.broadcast`, which raises nothing
  abbrev pub send : String → Object → Act (System W) (Unit {0})
  send channel payload s = (ok tt, record s { sent = s.sent ++ (channel, payload) ∷ [] })

  -- a provider of the task
  abbrev pub in_system : {P : Python} → Provider P W → Provider P (System W)
  in_system p = record {
    connect = on_world p.connect;
    disconnect = on_world p.disconnect;
    test_connection = on_world p.test_connection;
    get_tables = on_world p.get_tables;
    get_table_schema = λ t. on_world (p.get_table_schema t);
    get_row_count = λ t. on_world (p.get_row_count t);
    fetch_batch = λ t offset limit columns. on_world (p.fetch_batch t offset limit columns);
    create_table = λ t. on_world (p.create_table t);
    insert_batch = λ t rows. on_world (p.insert_batch t rows);
    truncate_table = λ t. on_world (p.truncate_table t);
    table_exists = λ t. on_world (p.table_exists t);
  }

-- `async with`, of a provider of the task
abbrev pub within : {P : Python} {W A : Type 0} → Provider P W → Act (System W) A → Act (System W) A
within p m = opened (in_system p) m

-- The sessions of the application's database: that of a request to create a migration, and those that
-- a task opens: where it begins, in its two
-- callbacks, after the run, and in `_mark_failed`.
pub data Session : Type 0 where
  at_create at_start at_progress at_log at_end at_failure : Session

-- The clocks, `uuid4`, the sleep of the event loop, the arithmetic of floats, and what the calls of a
-- session come to, which may raise: then the session has written nothing.
pub record Runtime (P : Python) (W : Type 0) : Type 0 where
  pub now : W → ℕ
  pub monotonic : W → P.Float
  pub new_uuid : W → String × W
  pub sleep : ℕ → Act W (Unit {0})
  pub session : Session → Act W (Unit {0})
  pub floats : Floats P.Float

-- `async with AsyncSessionLocal() as db: m`
abbrev pub in_session :
    {P : Python} {W A : Type 0} → Runtime P W → Session → Act Database A → Act (System W) A
in_session runtime k m = on_world (runtime.session k) >>= λ u. on_db m
