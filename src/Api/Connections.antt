-- ===== src/Api/Connections.antt =====
-- app/api/routes/connection.py, app/api/routes/schema.py and app/api/routes/health.py.
pub mod Tested
use migrate_app_backend.Base.{String, ok}
use migrate_app_backend.Base.Effect.{pure}
use migrate_app_backend.Migration.Value.{Python}
use migrate_app_backend.Providers.Registry.{Drivers}
use migrate_app_backend.Schemas.Connection.{ConnectionCredentials}
use migrate_app_backend.Services.ConnectionService.{ConnectionTestResponse, test_connection}
use migrate_app_backend.Services.SchemaService.{SchemaResponse, get_tables}
use migrate_app_backend.Api.Answers.{Answer}
use migrate_app_backend.Api.Routes.{answered}

module _ {P : Python} {W : Type 0} (drivers : Drivers P W) where
  -- `POST /connections/test`
  unfoldable pub test_route :
      ConnectionCredentials → W → Answer (ConnectionTestResponse P.Float) × W
  test_route req = answered 200 (test_connection drivers req)

  -- `POST /schema/tables`
  unfoldable pub tables_route : ConnectionCredentials → W → Answer SchemaResponse × W
  tables_route connection = answered 200 (get_tables drivers connection)

-- `HealthResponse`
pub record HealthResponse : Type 0 where
  pub status : String
  pub version : String
  pub environment : String

-- `GET /health`, with the version and the environment of the settings
unfoldable pub health_check :
    {W : Type 0} → (version environment : String) → W → Answer HealthResponse × W
health_check version environment =
    answered 200 (pure (record { status = "ok"; version = version; environment = environment }))
