-- ===== src/Services/MigrationService.antt =====
-- app/services/migration_service.py: starting and cancelling a migration. The time, and what the
-- calls of the broker and the commit come to, are arguments.
pub mod Start
pub mod Create
pub mod Read
use migrate_app_backend.Base.{
  ℕ, String, Option, none, some, Bool, true, false, List, [], ◌∷◌, ◌++◌, str_eq, if◌then◌else◌,
  Exception, Result, ok, raise,
}
use migrate_app_backend.Base.Text.{◌<>◌}
use migrate_app_backend.Base.Dict.{lookup, insert}
use migrate_app_backend.Base.Effect.{Act, pure, throw, lift, unless, ◌>>=◌, ◌>>◌}
use migrate_app_backend.Core.Constants.{MigrationStatus, status_value}
use migrate_app_backend.Models.{Migration, Database}

-- `update` of a row, committed
abbrev pub save : String → Migration → Act Database (Unit {0})
save id m db = (ok tt, record db { migrations = insert id m db.migrations })

-- `scalar_one_or_none()` with the 404
abbrev pub or_404 : String → Option Migration → Act Database Migration
or_404 id none = throw (Exception.http_not_found ("Migration '" <> id <> "' not found."))
or_404 id (some m) = pure m

-- `_get_or_404`
unfoldable pub get_or_404 : String → Act Database Migration
get_or_404 id db = or_404 id (lookup id db.migrations) db

-- `record.status in (MigrationStatus.PENDING, MigrationStatus.FAILED)`
abbrev pub can_start : MigrationStatus → Bool
can_start MigrationStatus.pending = true
can_start MigrationStatus.failed = true
can_start _ = false

unfoldable pub started : Migration → String → ℕ → Migration
started m task_id now = record m {
  celery_task_id = some task_id;
  status = MigrationStatus.running;
  started_at = some now;
}

abbrev pub add_queued : String → String → Act Database String
add_queued task_id id db = (ok task_id, record db { queued = db.queued ++ (task_id, id) ∷ [] })

-- `run_migration_task.delay(migration_id)`, by what the broker's call comes to: the id of the task
abbrev pub enqueue : Result String → String → Act Database String
enqueue task id = lift task >>= λ task_id. add_queued task_id id

-- `committed` is what `db.commit()` comes to; where it raises, the row is as before.
unfoldable pub start_record :
    String
    → Result String
    → Result (Unit {0})
    → ℕ
    → Migration
    → Bool
    → Act Database (String × String)
unfolding started
start_record id task committed now m true = do
  task_id ← enqueue task id
  lift committed
  save id (started m task_id now)
  pure (id, task_id)
start_record id task committed now m false = throw (
    Exception.value_error
      ("Migration is in '" <> status_value m.status <> "' state and cannot be started."))

-- `start_migration`
unfoldable pub start_migration :
    String → Result String → Result (Unit {0}) → ℕ → Act Database (String × String)
unfolding get_or_404 start_record
start_migration id task committed now = do
  m ← get_or_404 id
  start_record id task committed now m (can_start m.status)

-- `record.status != MigrationStatus.RUNNING`
abbrev pub is_running : MigrationStatus → Bool
is_running MigrationStatus.running = true
is_running _ = false

abbrev pub add_revoked : String → Act Database (Unit {0})
add_revoked task_id db = (ok tt, record db { revoked = db.revoked ++ task_id ∷ [] })

-- `celery_app.control.revoke`, if the row has a task; `sent` is what the broker's call comes to
abbrev pub revoke : Option String → Result (Unit {0}) → Act Database (Unit {0})
revoke none sent = pure tt
revoke (some task_id) sent = unless (str_eq task_id "") (do lift sent; add_revoked task_id)

unfoldable pub cancelled : Migration → ℕ → Migration
cancelled m now = record m { status = MigrationStatus.cancelled; completed_at = some now }

unfoldable pub cancel_record :
    String
    → Result (Unit {0})
    → Result (Unit {0})
    → ℕ
    → Migration
    → Bool
    → Act Database (String × String)
unfolding cancelled
cancel_record id sent committed now m false =
    throw (Exception.value_error "Only running migrations can be cancelled.")
cancel_record id sent committed now m true = do
  revoke m.celery_task_id sent
  lift committed
  save id (cancelled m now)
  pure (id, "cancelled")

-- `cancel_migration`
unfoldable pub cancel_migration :
    String → Result (Unit {0}) → Result (Unit {0}) → ℕ → Act Database (String × String)
unfolding get_or_404 cancel_record
cancel_migration id sent committed now = do
  m ← get_or_404 id
  cancel_record id sent committed now m (is_running m.status)
