-- ===== src/Api/Routes.antt =====
-- app/api/routes/migration.py: the routes, each with its status code.
pub mod Errors
pub mod ByStatus
use migrate_app_backend.Base.{ℕ, String, Bool, ◌&&◌, List, leb, Result, ok, raise, if◌then◌else◌}
use migrate_app_backend.Base.Effect.{Act}
use migrate_app_backend.Models.{MigrationLog, Database}
use migrate_app_backend.Migration.Value.{Python}
use migrate_app_backend.Providers.Registry.{Drivers}
use migrate_app_backend.Schemas.Request.{MigrationCreateRequest}
use migrate_app_backend.Services.Stored.{Serializers}
use migrate_app_backend.Services.MigrationService.{start_migration, cancel_migration}
use migrate_app_backend.Services.MigrationService.Create.{create_migration}
use migrate_app_backend.Services.MigrationService.Read.{
  MigrationStatusResponse, MigrationLogsResponse, get_status, get_logs,
}
use migrate_app_backend.Utils.Helpers.{Floats}
use migrate_app_backend.Workers.System.{System, Runtime}
use migrate_app_backend.Api.Answers.{Answer, answer}

-- the response to a request that the service serves
abbrev pub answered : {S A : Type 0} → ℕ → Act S A → S → Answer A × S
answered status_code m s = let (r, t) = m s in (answer status_code r, t)

module _ {P : Python} {W : Type 0} (runtime : Runtime P W) (drivers : Drivers P W)
    (stored : Serializers) where
  -- `POST /migration/create`
  unfoldable pub create_route : ℕ × ℕ → MigrationCreateRequest → System W → Answer String × System W
  create_route seeds req = answered 201 (create_migration runtime drivers stored seeds req)

-- `POST /migration/start/{migration_id}`
unfoldable pub start_route :
    String → Result String → Result (Unit {0}) → ℕ → Database → Answer (String × String) × Database
start_route id task committed now = answered 200 (start_migration id task committed now)

-- `POST /migration/{migration_id}/cancel`
unfoldable pub cancel_route :
    String
    → Result (Unit {0})
    → Result (Unit {0})
    → ℕ
    → Database
    → Answer (String × String) × Database
cancel_route id sent committed now = answered 200 (cancel_migration id sent committed now)

module _ {F : Type 0} (floats : Floats F) (total_seconds : ℕ → ℕ → F) (text : String) where
  -- `GET /migration/{migration_id}`
  unfoldable pub status_route : String → ℕ → Database → Answer MigrationStatusResponse × Database
  status_route id now = answered 200 (get_status floats total_seconds text id now)

module _ (order_by : List MigrationLog → List MigrationLog) (text : String) where
  -- `GET /migration/{migration_id}/logs`, with the bounds of its parameters
  unfoldable pub logs_route : String → ℕ → ℕ → Database → Answer MigrationLogsResponse × Database
  logs_route id limit offset db =
      if leb 1 limit && leb limit 1000
      then answered 200 (get_logs order_by text id limit offset) db
      else (Answer.unprocessable, db)
