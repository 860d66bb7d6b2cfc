-- ===== src/Api/Routes/ByStatus.antt =====
-- app/api/routes/migration.py: what is answered to requests to start and to cancel a migration.
use migrate_app_backend.Base.{
  ℕ, String, Option, none, some, Bool, true, false, [], ◌∷◌, ◌++◌, str_eq, if◌then◌else◌, Result,
  ok, raise, out_of_fuel, ◌≡◌, refl,
}
use migrate_app_backend.Base.Dict.{lookup, insert}
use migrate_app_backend.Base.Effect.{Act, pure, lift, unless, ◌>>=◌}
use migrate_app_backend.Core.Constants.{MigrationStatus, status_value}
use migrate_app_backend.Models.{Migration, Database}
use migrate_app_backend.Services.MigrationService.{
  get_or_404, can_start, is_running, add_revoked, revoke, save, started, start_record,
  start_migration, cancelled, cancel_record, cancel_migration,
}
use migrate_app_backend.Api.Answers.{Answer, handler, answer}
use migrate_app_backend.Api.Routes.{answered, start_route, cancel_route}

-- What a request comes to, and what it leaves, by the status of the row, and by what the calls of
-- the broker and the commit come to.
module _ (id : String) (now : ℕ) (m : Migration) (db : Database) where
  -- the migration is put into the queue, and its row is started
  abbrev pub dispatched : Result String → Result (Unit {0}) → Answer (String × String) × Database
  dispatched (ok t) (ok u) = (
    Answer.success 200 (id, t),
    record db {
      migrations =
          insert id
            (record m {
              celery_task_id = some t;
              status = MigrationStatus.running;
              started_at = some now;
            })
            db.migrations;
      queued = db.queued ++ (t, id) ∷ [];
    },
  )
  dispatched (ok t) (raise e) = (handler e, record db { queued = db.queued ++ (t, id) ∷ [] })
  dispatched (ok t) out_of_fuel =
      (Answer.no_answer, record db { queued = db.queued ++ (t, id) ∷ [] })
  dispatched (raise e) committed = (handler e, db)
  dispatched out_of_fuel committed = (Answer.no_answer, db)

  abbrev pub refused : String → Answer (String × String) × Database
  refused why = (Answer.error_response 400 "Validation error" (some why), db)

  abbrev pub start_answer :
      Result String → Result (Unit {0}) → MigrationStatus → Answer (String × String) × Database
  start_answer task committed MigrationStatus.pending = dispatched task committed
  start_answer task committed MigrationStatus.failed = dispatched task committed
  start_answer task committed MigrationStatus.planning =
      refused "Migration is in 'planning' state and cannot be started."
  start_answer task committed MigrationStatus.running =
      refused "Migration is in 'running' state and cannot be started."
  start_answer task committed MigrationStatus.paused =
      refused "Migration is in 'paused' state and cannot be started."
  start_answer task committed MigrationStatus.completed =
      refused "Migration is in 'completed' state and cannot be started."
  start_answer task committed MigrationStatus.cancelled =
      refused "Migration is in 'cancelled' state and cannot be started."

  -- the row is cancelled, from a database in which its task, if it has one, is revoked
  abbrev pub written : Result (Unit {0}) → Database → Answer (String × String) × Database
  written (ok u) d = (
    Answer.success 200 (id, "cancelled"),
    record d {
      migrations =
          insert id (record m { status = MigrationStatus.cancelled; completed_at = some now })
            d.migrations;
    },
  )
  written (raise e) d = (handler e, d)
  written out_of_fuel d = (Answer.no_answer, d)

  abbrev pub after_revoke :
      Result (Unit {0}) → Result (Unit {0}) → String → Answer (String × String) × Database
  after_revoke (ok u) committed t = written committed (record db { revoked = db.revoked ++ t ∷ [] })
  after_revoke (raise e) committed t = (handler e, db)
  after_revoke out_of_fuel committed t = (Answer.no_answer, db)

  abbrev pub cancel_running :
      Result (Unit {0}) → Result (Unit {0}) → Option String → Answer (String × String) × Database
  cancel_running sent committed none = written committed db
  cancel_running sent committed (some t) =
      if str_eq t "" then written committed db else after_revoke sent committed t

  abbrev pub cancel_answer :
      Result (Unit {0}) → Result (Unit {0}) → MigrationStatus → Answer (String × String) × Database
  cancel_answer sent committed MigrationStatus.running =
      cancel_running sent committed m.celery_task_id
  cancel_answer sent committed _ = refused "Only running migrations can be cancelled."

  module _ (task : Result String) (committed : Result (Unit {0})) where
    start_dispatched :
        answered 200 (start_record id task committed now m true) db ≡ dispatched task committed
    unfolding start_record started answer handler
    start_dispatched = by_calls task committed
      where
        by_calls :
            (task : Result String) (committed : Result (Unit {0}))
            → answered 200 (start_record id task committed now m true) db
              ≡ dispatched task committed
        by_calls (ok t) (ok u) = refl
        by_calls (ok t) (raise e) = refl
        by_calls (ok t) out_of_fuel = refl
        by_calls (raise e) c = refl
        by_calls out_of_fuel c = refl

    start_by_status :
        (s : MigrationStatus)
        → m.status ≡ s
        → answered 200 (start_record id task committed now m (can_start s)) db
          ≡ start_answer task committed s
    unfolding start_record answer handler status_value
    start_by_status MigrationStatus.pending e = start_dispatched
    start_by_status MigrationStatus.failed e = start_dispatched
    start_by_status MigrationStatus.planning e = rw e refl
    start_by_status MigrationStatus.running e = rw e refl
    start_by_status MigrationStatus.paused e = rw e refl
    start_by_status MigrationStatus.completed e = rw e refl
    start_by_status MigrationStatus.cancelled e = rw e refl

  module _ (sent committed : Result (Unit {0})) where
    cancel_by_task :
        answered 200 (cancel_record id sent committed now m true) db
        ≡ cancel_running sent committed m.celery_task_id
    unfolding cancel_record cancelled answer handler
    cancel_by_task = by_task m.celery_task_id
      where
        saved : Act Database (String × String)
        saved = lift committed >>= λ u. (save id (cancelled m now) >>= λ v. pure (id, "cancelled"))

        saved_written :
            (c : Result (Unit {0})) (d : Database)
            → answered 200
                (lift c >>= λ u. (save id (cancelled m now) >>= λ v. pure (id, "cancelled")))
                d
              ≡ written c d
        saved_written (ok u) d = refl
        saved_written (raise e) d = refl
        saved_written out_of_fuel d = refl

        by_truth :
            (t : String) (b : Bool) (r : Result (Unit {0}))
            → answered 200 (unless b (lift r >>= λ u. add_revoked t) >>= λ u. saved) db
              ≡ (if b then written committed db else after_revoke r committed t)
        by_truth t true r = saved_written committed db
        by_truth t false (ok u) =
            saved_written committed (record db { revoked = db.revoked ++ t ∷ [] })
        by_truth t false (raise e) = refl
        by_truth t false out_of_fuel = refl

        by_task :
            (o : Option String)
            → answered 200 (revoke o sent >>= λ u. saved) db ≡ cancel_running sent committed o
        by_task none = saved_written committed db
        by_task (some t) = by_truth t (str_eq t "") sent

    cancel_by_status :
        (s : MigrationStatus)
        → answered 200 (cancel_record id sent committed now m (is_running s)) db
          ≡ cancel_answer sent committed s
    unfolding cancel_record answer handler
    cancel_by_status MigrationStatus.running = cancel_by_task
    cancel_by_status MigrationStatus.pending = refl
    cancel_by_status MigrationStatus.planning = refl
    cancel_by_status MigrationStatus.paused = refl
    cancel_by_status MigrationStatus.completed = refl
    cancel_by_status MigrationStatus.failed = refl
    cancel_by_status MigrationStatus.cancelled = refl

  -- For a migration that has a row, requests to start and to cancel it are answered as these two
  -- tables say. A start is served for the statuses `pending` and `failed`: 200 with the task's id,
  -- which is in the queue and in the row, now `running`; and where the broker's call raises, nothing
  -- is written, but where the commit does, the task is in the queue and the row as before. A cancellation is
  -- served for `running`: the row's task, if it has one, is revoked and the row `cancelled`. Every other
  -- request is answered with 400, and writes nothing.
  pub requests_by_status :
      (task : Result String) (sent committed : Result (Unit {0}))
      → lookup id db.migrations ≡ some m
      → (start_route id task committed now db ≡ start_answer task committed m.status)
        × (cancel_route id sent committed now db ≡ cancel_answer sent committed m.status)
  unfolding start_route cancel_route start_migration cancel_migration get_or_404
  requests_by_status task sent committed e = (
    rw e (start_by_status task committed m.status refl),
    rw e (cancel_by_status sent committed m.status),
  )
