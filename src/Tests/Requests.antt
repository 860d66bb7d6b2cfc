-- ===== src/Tests/Requests.antt =====
-- A request to test a MySQL server that cannot be reached.
use migrate_app_backend.Base.{◌≡◌, refl, some, none, true, false, ok, is_ok}
use migrate_app_backend.Base.Int.{pos}
use migrate_app_backend.Base.Effect.{pure}
use migrate_app_backend.Core.Constants.{DatabaseType, ConnectionMethod}
use migrate_app_backend.Providers.Registry.{Drivers}
use migrate_app_backend.Schemas.Connection.{
  ConnectionCredentials, validate_fields_for_method, validate_method, validate_login, no_missing,
  missing_fields,
}
use migrate_app_backend.Services.ConnectionService.{ConnectionTestResponse}
use migrate_app_backend.Api.Answers.{Answer, answer}
use migrate_app_backend.Api.Connections.{test_route, HealthResponse, health_check}
use migrate_app_backend.Api.Connections.Tested.{IsTestable, test_route-success}
use migrate_app_backend.Tests.Fixtures.{python, World, empty_world, memory}
use migrate_app_backend.Tests.Application.{drivers}

abbrev login : ConnectionCredentials
login = record {
  database_type = DatabaseType.mysql;
  connection_method = ConnectionMethod.credentials;
  database_url = none;
  host = some "db";
  port = some (pos 3306);
  database = some "app";
  username = some "root";
  password = some "secret";
  file_path = none;
}

abbrev unreachable : Drivers python World
unreachable = record drivers {
  mysql = λ params. record memory { test_connection = pure (false, "refused", tt) };
  urlparse = λ url.
      ok (record { hostname = none; port = none; username = none; password = none; path = "" });
}

unreachable-IsTestable : IsTestable unreachable
unreachable-IsTestable = record {
  postgres = λ dsn. record { at = λ w. refl };
  mysql = λ params. record { at = λ w. refl };
  sqlite = λ path. record { at = λ w. refl };
}

login_test : is_ok (validate_fields_for_method login) ≡ true
unfolding validate_fields_for_method validate_method validate_login no_missing missing_fields
login_test = refl

test_route-success_example :
    (response : ConnectionTestResponse python.Float) × ((test_route unreachable login empty_world).0
      ≡ Answer.success 200 response)
test_route-success_example =
    test_route-success unreachable login empty_world unreachable-IsTestable login_test
      (λ url e. refl) refl

abbrev healthy : HealthResponse
healthy = record { status = "ok"; version = "1.0.0"; environment = "production" }

health_check_test :
    health_check "1.0.0" "production" empty_world ≡ (Answer.success 200 healthy, empty_world)
unfolding health_check answer
health_check_test = refl
