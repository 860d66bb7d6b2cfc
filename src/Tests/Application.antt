-- ===== src/Tests/Application.antt =====
-- An application whose two SQLite databases are the pair in memory, and that has no migration yet;
-- and the life of one, from its request to the end of its task.
use migrate_app_backend.Base.{
  String, Option, none, some, true, false, [], ◌∷◌, ok, raise, Exception,
}
use migrate_app_backend.Base.Int.{pos}
use migrate_app_backend.Base.Dict.{lookup}
use migrate_app_backend.Base.Effect.{pure}
use migrate_app_backend.Core.Constants.{DatabaseType, ConnectionMethod}
use migrate_app_backend.Schemas.Connection.{ConnectionCredentials}
use migrate_app_backend.Schemas.Migration.{MigrationSettings}
use migrate_app_backend.Schemas.Request.{MigrationCreateRequest}
use migrate_app_backend.Providers.Registry.{Drivers}
use migrate_app_backend.Services.Stored.{Serializers}
use migrate_app_backend.Utils.Encryption.{Crypto}
use migrate_app_backend.Utils.Helpers.{Floats}
use migrate_app_backend.Utils.Json.{Scalar, Object, text}
use migrate_app_backend.Workers.System.{System, Runtime}
use migrate_app_backend.Tests.Fixtures.{python, World, empty_world, memory}

abbrev path_text : Option Scalar → String
path_text (some (text t)) = t
path_text _ = "?"

abbrev pub file_creds : String → Object
file_creds path =
    ("database_type", text "sqlite")
    ∷ ("connection_method", text "credentials")
    ∷ ("file_path", text path)
    ∷ []

-- a cipher that changes nothing, and the path of a file as the text of its credentials
abbrev pub crypto : Crypto
crypto = record {
  Key = Unit {0};
  b64encode = λ t. t;
  fernet = λ t. ok tt;
  encrypt = λ k seed t. t;
  decrypt = λ k t. some t;
  dumps = λ o. path_text (lookup "file_path" o);
  loads = λ t. some (file_creds t);
}

abbrev pub settings : MigrationSettings
settings = record {
  include_schema = true;
  include_data = true;
  batch_size = 100;
  truncate_destination = false;
  continue_on_error = false;
  max_retries = 1;
}

abbrev pub stored : Serializers
stored = record {
  crypto = crypto;
  encryption_key = "key";
  dumps_tables = λ ts. "tables";
  loads_tables = λ t. ok ("users" ∷ []);
  dumps_settings = λ s. "settings";
  loads_settings = λ t. ok settings;
  dumps_plan = λ p. "plan";
  validation_error = "invalid";
}

abbrev pub sqlite_file : String → ConnectionCredentials
sqlite_file path = record {
  database_type = DatabaseType.sqlite;
  connection_method = ConnectionMethod.credentials;
  database_url = none;
  host = none;
  port = none;
  database = none;
  username = none;
  password = none;
  file_path = some path;
}

abbrev pub request : MigrationCreateRequest
request = record {
  source = sqlite_file "a.db";
  destination = sqlite_file "b.db";
  tables = "users" ∷ [];
  settings = settings;
}

abbrev pub no_floats : Floats (Unit {0})
no_floats = record {
  zero_float = tt;
  div_int = λ p t. tt;
  div = λ p x. tt;
  mul = λ x n. tt;
  sub = λ x y. tt;
  is_positive = λ x. true;
  is_nonpositive = λ x. false;
  round = λ x. pos 0;
  ceil = λ x. pos 0;
}

abbrev pub runtime : Runtime python World
runtime = record {
  now = λ w. w.tries;
  monotonic = λ w. tt;
  new_uuid = λ w. ("m1", w);
  sleep = λ n. pure tt;
  session = λ k. pure tt;
  floats = no_floats;
}

abbrev pub drivers : Drivers python World
drivers = record {
  postgres = λ dsn. memory;
  mysql = λ params. memory;
  sqlite = λ path. memory;
  urlparse = λ t. raise (Exception.value_error "not a URL");
  int_of_text = λ t. raise (Exception.value_error "not a number");
}

-- whose destination is no database that can be opened
abbrev pub broken_drivers : Drivers python World
broken_drivers = record drivers {
  sqlite = λ path. record memory { test_connection = pure (false, "unreachable", tt) };
}

abbrev pub start_state : System World
start_state = record {
  world = empty_world;
  db = record { migrations = []; logs = []; queued = []; revoked = [] };
  sent = [];
}
