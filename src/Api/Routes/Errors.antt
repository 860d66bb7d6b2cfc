-- ===== src/Api/Routes/Errors.antt =====
-- app/api/routes/migration.py: what is answered to requests for migrations that are not there.
use migrate_app_backend.Base.{ℕ, ◌≤◌, String, none, true, List, leb, Result, ◌≡◌, refl, arith}
use migrate_app_backend.Base.Text.{◌<>◌}
use migrate_app_backend.Base.Dict.{lookup}
use migrate_app_backend.Models.{MigrationLog, Database}
use migrate_app_backend.Services.MigrationService.{get_or_404, start_migration, cancel_migration}
use migrate_app_backend.Services.MigrationService.Read.{get_status, get_logs}
use migrate_app_backend.Utils.Helpers.{Floats}
use migrate_app_backend.Api.Answers.{Answer, handler, answer}
use migrate_app_backend.Api.Routes.{start_route, cancel_route, status_route, logs_route}

abbrev pub not_found : {A : Type 0} → String → Answer A
not_found id = Answer.http_error 404 ("Migration '" <> id <> "' not found.")

-- Each route answers 404, and the database is as before.
pub record AllNotFound {F : Type 0} (floats : Floats F) (total_seconds : ℕ → ℕ → F)
    (order_by : List MigrationLog → List MigrationLog) (text id : String) (task : Result String)
    (sent committed : Result (Unit {0})) (now limit offset : ℕ) (db : Database) : Type 0 where
  pub start : start_route id task committed now db ≡ (not_found id, db)
  pub cancel : cancel_route id sent committed now db ≡ (not_found id, db)
  pub status : status_route floats total_seconds text id now db ≡ (not_found id, db)
  pub logs : logs_route order_by text id limit offset db ≡ (not_found id, db)

-- For an id that has no row, every request about it, to start or to cancel it, for its status, or for
-- its logs with a limit from 1 to 1000, is answered with 404 and the id, and changes nothing.
pub unknown_not_found :
    {F : Type 0} (floats : Floats F) (total_seconds : ℕ → ℕ → F)
    (order_by : List MigrationLog → List MigrationLog) (text id : String) (task : Result String)
    (sent committed : Result (Unit {0})) (now limit offset : ℕ) (db : Database)
    → 1 ≤ limit
    → limit ≤ 1000
    → lookup id db.migrations ≡ none
    → AllNotFound floats total_seconds order_by text id task sent committed now limit offset db
unfolding start_route cancel_route status_route logs_route answer handler start_migration
    cancel_migration get_status get_logs get_or_404
unknown_not_found floats total_seconds order_by text id task sent committed now limit offset db low
      high e =
    let l : leb 1 limit ≡ true = ground arith in
    let h : leb limit 1000 ≡ true = ground arith in
    record { start = rw e refl; cancel = rw e refl; status = rw e refl; logs = rw (l, h, e) refl }
