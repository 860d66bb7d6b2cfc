-- ===== src/Services/MigrationService/Read.antt =====
-- app/services/migration_service.py: `get_status` and `get_logs`, and the responses of
-- app/schemas/migration.py that they make. The time is an argument.
pub mod Status
use migrate_app_backend.Base.{
  ℕ, String, Option, none, some, Bool, true, false, ◌&&◌, List, [], ◌∷◌, ◌++◌, length, take, drop,
  leb, Result, ok, raise, Exception, str_eq, if◌then◌else◌,
}
use migrate_app_backend.Base.Int.{ℤ, pos, negsuc}
use migrate_app_backend.Base.Raise.{◌>>=◌}
use migrate_app_backend.Base.Effect.{Act, lift}
use migrate_app_backend.Base.Effect
use migrate_app_backend.Core.Constants.{MigrationStatus, LogLevel, level_value}
use migrate_app_backend.Models.{Migration, MigrationLog, Database}
use migrate_app_backend.Services.MigrationService.{get_or_404}
use migrate_app_backend.Utils.Helpers.{
  Floats, calculate_progress, calculate_speed, estimate_time_remaining,
}

-- `MigrationStatusResponse`
pub record MigrationStatusResponse : Type 0 where
  pub id : String
  pub status : MigrationStatus
  pub progress : ℤ
  pub current_table : Option String
  pub processed_rows : ℕ
  pub total_rows : ℕ
  pub speed : ℤ
  pub estimated_time_remaining : ℤ
  pub started_at : Option ℕ
  pub completed_at : Option ℕ
  pub error_message : Option String

-- `Field(ge=0, le=100)`; the text of pydantic's error is its own
unfoldable pub validate_progress : (text : String) → ℤ → Result ℤ
validate_progress text (pos n) =
    if leb n 100 then ok (pos n) else raise (Exception.value_error text)
validate_progress text (negsuc n) = raise (Exception.value_error text)

-- The floats, with `total_seconds` of the difference of two times.
module _ {F : Type 0} (floats : Floats F) (total_seconds : ℕ → ℕ → F) (text : String) where
  abbrev pub end_of : Option ℕ → ℕ → ℕ
  end_of none now = now
  end_of (some t) now = t

  abbrev pub elapsed_of : Option ℕ → Option ℕ → ℕ → F
  elapsed_of none completed_at now = floats.zero_float
  elapsed_of (some started_at) completed_at now = total_seconds (end_of completed_at now) started_at

  -- `MigrationStatusResponse(…)`, of its progress
  unfoldable pub response_of : String → ℕ → Migration → ℤ → MigrationStatusResponse
  response_of id now m progress = record {
    id = id;
    status = m.status;
    progress = progress;
    current_table = m.current_table;
    processed_rows = m.processed_rows;
    total_rows = m.total_rows;
    speed = calculate_speed floats m.processed_rows (elapsed_of m.started_at m.completed_at now);
    estimated_time_remaining =
        estimate_time_remaining floats m.processed_rows m.total_rows
          (elapsed_of m.started_at m.completed_at now);
    started_at = m.started_at;
    completed_at = m.completed_at;
    error_message = m.error_message;
  }

  unfoldable pub status_response : String → ℕ → Migration → Result MigrationStatusResponse
  unfolding validate_progress response_of
  status_response id now m =
      validate_progress text (calculate_progress floats m.processed_rows m.total_rows)
      >>= λ progress. ok (response_of id now m progress)

  -- `get_status`
  unfoldable pub get_status : String → ℕ → Act Database MigrationStatusResponse
  unfolding status_response get_or_404
  get_status id now = Effect.◌>>=◌ (get_or_404 id) (λ m. lift (status_response id now m))

-- `MigrationLogEntry`
pub record MigrationLogEntry : Type 0 where
  pub id : String
  pub timestamp : ℕ
  pub level : LogLevel
  pub message : String
  pub table_name : Option String

-- `MigrationLogsResponse`
pub record MigrationLogsResponse : Type 0 where
  pub migration_id : String
  pub logs : List MigrationLogEntry
  pub total : ℕ

abbrev pub log_levels : List LogLevel
log_levels =
    LogLevel.debug ∷ LogLevel.info ∷ LogLevel.warning ∷ LogLevel.error ∷ LogLevel.critical ∷ []

level_among : String → String → List LogLevel → Result LogLevel
level_among text value [] = raise (Exception.value_error text)
level_among text value (l ∷ ls) =
    if str_eq value (level_value l) then ok l else level_among text value ls

-- `LogLevel` of a text
unfoldable pub level_of : (text : String) → String → Result LogLevel
unfolding level_among
level_of text value = level_among text value log_levels

-- `MigrationLogEntry(…)` of a row
unfoldable pub entry_of : (text : String) → MigrationLog → Result MigrationLogEntry
unfolding level_of
entry_of text row = level_of text row.level >>= λ level. ok (record {
  id = row.id;
  timestamp = row.created_at;
  level = level;
  message = row.message;
  table_name = row.table_name;
})

unfoldable pub entries : (text : String) → List MigrationLog → Result (List MigrationLogEntry)
unfolding entry_of
entries text [] = ok []
entries text (row ∷ rows) = entry_of text row >>= λ e. entries text rows >>= λ es. ok (e ∷ es)

-- `.where(MigrationLog.migration_id == migration_id)`
unfoldable pub logs_of : String → List MigrationLog → List MigrationLog
logs_of id [] = []
logs_of id (l ∷ ls) =
    let rest = logs_of id ls in if str_eq l.migration_id id then l ∷ rest else rest

-- `order_by` is the database's `ORDER BY created_at`, which settles ties as it likes.
module _ (order_by : List MigrationLog → List MigrationLog) (text : String) where
  -- what follows `_get_or_404`
  unfoldable pub logs_response : String → ℕ → ℕ → Database → Result MigrationLogsResponse
  unfolding entries logs_of
  logs_response id limit offset db =
      entries text (take limit (drop offset (order_by (logs_of id db.logs)))) >>= λ page.
      ok (record { migration_id = id; logs = page; total = length (logs_of id db.logs) })

  -- `get_logs`
  unfoldable pub get_logs : String → ℕ → ℕ → Act Database MigrationLogsResponse
  unfolding logs_response get_or_404
  get_logs id limit offset =
      Effect.◌>>=◌ (get_or_404 id) (λ m db. (logs_response id limit offset db, db))
