-- ===== src/Services/ConnectionService.antt =====
-- app/services/connection_service.py: testing a connection.
pub mod Accepts
use migrate_app_backend.Base.{
  String, Option, none, some, Bool, false, [], ◌∷◌, ◌++◌, Result, ok, raise, out_of_fuel, Exception,
}
use migrate_app_backend.Base.Effect.{Act, pure, lift, ◌>>=◌}
use migrate_app_backend.Core.Constants.{DatabaseType, ConnectionMethod, database_value}
use migrate_app_backend.Migration.Value.{Python}
use migrate_app_backend.Providers.{Provider}
use migrate_app_backend.Providers.Registry.{Drivers, get_provider}
use migrate_app_backend.Schemas.Connection.{ConnectionCredentials}
use migrate_app_backend.Services.Credentials.{method_value, optional_number}
use migrate_app_backend.Utils.Json.{Object, text, optional_text}

-- `ConnectionTestResponse`
pub record ConnectionTestResponse (F : Type 0) : Type 0 where
  pub success : Bool
  pub message : String
  pub latency_ms : Option F

abbrev login_of : ConnectionCredentials → Object
login_of req =
    ("connection_method", text (method_value req.connection_method))
    ∷ ("host", optional_text req.host)
    ∷ ("port", optional_number req.port)
    ∷ ("database", optional_text req.database)
    ∷ ("username", optional_text req.username)
    ∷ ("password", optional_text req.password)
    ∷ []

with_file : ConnectionCredentials → DatabaseType → Object
with_file req DatabaseType.sqlite = login_of req ++ ("file_path", optional_text req.file_path) ∷ []
with_file req _ = login_of req

credentials_by : ConnectionCredentials → ConnectionMethod → Object
unfolding with_file
credentials_by req ConnectionMethod.url =
    ("database_url", optional_text req.database_url)
    ∷ ("connection_method", text (method_value req.connection_method))
    ∷ []
credentials_by req ConnectionMethod.credentials = with_file req req.database_type

-- `_build_credentials`
unfoldable pub build_credentials : ConnectionCredentials → Object
unfolding credentials_by
build_credentials req = credentials_by req req.connection_method

unfoldable pub tested : {S F : Type 0} → Bool × String × F → Act S (ConnectionTestResponse F)
tested (success, message, latency_ms) =
    pure (record { success = success; message = message; latency_ms = some latency_ms })

module _ {P : Python} {W : Type 0} where
  -- what follows `get_provider`, with its `except NotImplementedError`
  unfoldable pub test_provider : Result (Provider P W) → Act W (ConnectionTestResponse P.Float)
  unfolding tested
  test_provider (ok provider) = provider.test_connection >>= tested
  test_provider (raise (Exception.not_implemented m)) =
      pure (record { success = false; message = m; latency_ms = none })
  test_provider (raise exc) = lift (raise exc)
  test_provider out_of_fuel = lift out_of_fuel

  -- `ConnectionService.test_connection`
  unfoldable pub test_connection :
      Drivers P W → ConnectionCredentials → Act W (ConnectionTestResponse P.Float)
  unfolding test_provider build_credentials
  test_connection drivers req =
      test_provider
        (get_provider drivers (database_value req.database_type) (build_credentials req))
