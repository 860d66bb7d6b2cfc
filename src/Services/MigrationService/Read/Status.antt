-- ===== src/Services/MigrationService/Read/Status.antt =====
-- app/services/migration_service.py: what `get_status` answers.
use migrate_app_backend.Base.{ℕ, ◌≤◌, String, some, ok, ◌≡◌, refl, arith}
use migrate_app_backend.Base.Int.{pos}
use migrate_app_backend.Base.Dict.{lookup}
use migrate_app_backend.Models.{Migration, Database}
use migrate_app_backend.Services.MigrationService.{get_or_404}
use migrate_app_backend.Services.MigrationService.Read.{
  MigrationStatusResponse, validate_progress, response_of, status_response, get_status,
}
use migrate_app_backend.Utils.Helpers.{Floats}
use migrate_app_backend.Utils.Helpers.Laws.{IsRounding, calculate_progress_range}

-- The response tells of the row.
pub record Tells (m : Migration) (r : MigrationStatusResponse) : Type 0 where
  pub status : r.status ≡ m.status
  pub progress : (k : ℕ) × (r.progress ≡ pos k) × (k ≤ 100)
  pub processed_rows : r.processed_rows ≡ m.processed_rows
  pub error_message : r.error_message ≡ m.error_message

module _ {F : Type 0} (floats : Floats F) (total_seconds : ℕ → ℕ → F) (text : String) where
  validate_progress-small : (k : ℕ) → k ≤ 100 → validate_progress text (pos k) ≡ ok (pos k)
  unfolding validate_progress
  validate_progress-small k h = ground arith

  -- For floats that round a product of counts to a count (`IsRounding`): the status of a migration
  -- that has a row is always answered, whatever the row counts and whenever it is asked for, with
  -- a progress between 0 and 100 and the row's own status, rows and error; so pydantic never
  -- refuses the response, and the database stays as it was.
  pub get_status_answers :
      IsRounding floats
      → (id : String) (now : ℕ) (m : Migration) (db : Database) → lookup id db.migrations ≡ some m
      → (r : MigrationStatusResponse) × (get_status floats total_seconds text id now db
          ≡ (ok r, db))
        × Tells m r
  unfolding get_status status_response response_of get_or_404
  get_status_answers h id now m db e =
      let (k, p, small) = calculate_progress_range floats h m.processed_rows m.total_rows in
      (
        response_of floats total_seconds text id now m (pos k),
        rw (e, p, validate_progress-small k small) refl,
        record {
          status = refl;
          progress = (k, refl, small);
          processed_rows = refl;
          error_message = refl;
        },
      )
