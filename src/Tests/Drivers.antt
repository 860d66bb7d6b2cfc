-- ===== src/Tests/Drivers.antt =====
-- The providers over a file with one table of three rows, which counts the batches that it gave.
use migrate_app_backend.Base.{
  is_ok, String, ◌≡◌, refl, ℕ, suc, Option, none, some, true, false, List, [], ◌∷◌, take, drop,
  Exception, ok, raise, arith,
}
use migrate_app_backend.Base.Int.{pos}
use migrate_app_backend.Base.Effect.{throw, Act, pure, lift, modify, ◌>>=◌}
use migrate_app_backend.Migration.Value.{Value, Row}
use migrate_app_backend.Providers.Sql.{Driver, connected}
use migrate_app_backend.Providers.Sqlite.{ColumnInfo, fetch_batch, stream_table}
use migrate_app_backend.Providers.Stream.{stream_from, for_each}
use migrate_app_backend.Providers.Streams.{IsServed, stream_table-chunk_list}
use migrate_app_backend.Providers.Lifecycle.{
  Held, Library, attached, disconnect, test_connection, ping,
}
use migrate_app_backend.Providers.Lifecycle.{connect_file}
use migrate_app_backend.Providers.Session.{opened}
use migrate_app_backend.Providers.Sqlite
use migrate_app_backend.Providers.Classes.{sqlite_provider}
use migrate_app_backend.Providers.Classes.Closed.{opened_closed}
use migrate_app_backend.Providers.Closes.{test_connection-Answers, disconnect_closes}
use migrate_app_backend.Utils.Helpers.{chunk_list}
use migrate_app_backend.Base.Text.{◌<>◌}
use migrate_app_backend.Providers.Registry.{after_prefix, replace_first}
use migrate_app_backend.Core.Database.{
  Urllib, build_async_url, asyncpg_url, replace_start, clean_url, kept, requires_ssl,
}
use migrate_app_backend.Core.Database.Urls.{build_async_url_spellings}
use migrate_app_backend.Tests.Fixtures.{python}

abbrev three_rows : List (Row python)
three_rows =
    (("id", Value.int (pos 1)) ∷ [])
    ∷ (("id", Value.int (pos 2)) ∷ [])
    ∷ (("id", Value.int (pos 3)) ∷ [])
    ∷ []

abbrev file : Driver python ℕ ColumnInfo
file = record {
  execute = λ sql. pure tt;
  executemany = λ sql records. pure tt;
  commit = pure tt;
  count = λ sql. pure (some 3);
  fetchall = λ sql limit offset. pure (take limit (drop offset three_rows));
  query = λ sql values. pure three_rows;
  tables = pure ("users" ∷ []);
  columns = λ t. pure [];
  exists = λ t. pure true;
}

abbrev count_batch : List (Row python) → Act ℕ (Unit {0})
count_batch batch = modify suc

file-IsServed :
    IsServed (λ n. three_rows) 2 (λ offset. fetch_batch (some file) "users" offset 2 none)
unfolding fetch_batch
file-IsServed = record { serves = λ offset s. refl }

stream_table_test : stream_table (some file) "users" 2 none count_batch 4 0 ≡ (ok tt, 2)
unfolding stream_table stream_from fetch_batch
stream_table_test = refl

stream_table-chunk_list_example :
    stream_table (some file) "users" 2 none count_batch 4 0
    ≡ (lift (chunk_list three_rows 2) >>= for_each count_batch) 0
stream_table-chunk_list_example =
    stream_table-chunk_list file "users" none 1 (λ n. three_rows) count_batch 4 0 file-IsServed
      (λ batch. record { at = λ n. refl }) (omega arith)

-- a server that cannot be reached
abbrev refusing : Library python ℕ ColumnInfo
refusing = record {
  Time = Unit {0};
  connect = pure file;
  connect_once = λ n. (raise (Exception.other_error "refused"), n);
  close = λ c. pure tt;
  close_once = λ c. pure tt;
  monotonic = pure tt;
  latency = λ start now. tt;
  zero_latency = tt;
}

test_connection-Answers_example :
    (lat : python.Float) × ((test_connection refusing 0).0 ≡ ok (false, "refused", lat))
unfolding ping
test_connection-Answers_example =
    test_connection-Answers refusing 0 (record { at = λ n. refl }) (record { at = λ n e. cc })

abbrev held : Option (Driver python ℕ ColumnInfo) → Held python ℕ ColumnInfo
held c = record { conn = c; world = 0 }

disconnect_test : disconnect refusing (held (some file)) ≡ (ok tt, held none)
unfolding disconnect
disconnect_test = refl

disconnect_closes_example :
    (attached (λ conn. connected conn >>= λ c. c.tables) (held none)
      ≡ (raise (Exception.other_error "Not connected"), held none))
    × (disconnect refusing (held none) ≡ (ok tt, held none))
disconnect_closes_example =
    disconnect_closes refusing (held (some file)) (held none) (λ c. c.tables) disconnect_test

-- a block that raises
abbrev failing : Act (Held python ℕ ColumnInfo) (Unit {0})
failing = throw (Exception.other_error "stopped")

opened_test :
    (opened (sqlite_provider refusing) failing (held none)).0
    ≡ raise (Exception.other_error "stopped")
unfolding opened sqlite_provider Sqlite.connect connect_file Sqlite.disconnect disconnect
opened_test = refl

connect_test : is_ok (Sqlite.connect refusing (held none)).0 ≡ true
unfolding Sqlite.connect connect_file
connect_test = refl

opened_closed_example :
    let done = opened (sqlite_provider refusing) failing (held none) in
    (done.0 ≡ (failing (Sqlite.connect refusing (held none)).1).0) × (done.1.conn ≡ none)
opened_closed_example =
    opened_closed refusing failing (held none) (λ c. record { at = λ n. refl })
      (record { at = λ t p. cc }) connect_test

-- a URL of one part, with a query that demands TLS
abbrev urllib : Urllib
urllib = record {
  Parts = String;
  urlsplit = λ url. ok url;
  query = λ parts. "sslmode=require&application_name=app";
  replace_query = λ query parts. parts <> query;
  urlunsplit = λ parts. parts;
  parse_qsl = λ query. ok (("sslmode", "require") ∷ ("application_name", "app") ∷ []);
  urlencode = λ params. "";
}

build_async_url_test :
    build_async_url urllib "postgres://db/app" ≡ ok ("postgresql+asyncpg://db/app", true)
unfolding build_async_url asyncpg_url replace_start after_prefix replace_first clean_url kept
    requires_ssl
build_async_url_test = refl

build_async_url_spellings_example :
    (build_async_url urllib "postgres://db/app"
      ≡ build_async_url urllib "postgresql+asyncpg://db/app")
    × (build_async_url urllib "postgresql://db/app"
        ≡ build_async_url urllib "postgresql+asyncpg://db/app")
build_async_url_spellings_example = build_async_url_spellings urllib "db/app"
