-- ===== src/Workers/MigrationTasks/Lifecycle.antt =====
-- The migration's row through its life: what the service and the worker write, in any order.
use migrate_app_backend.Base.{
  ℕ, String, Option, none, some, Bool, true, false, ◌&&◌, List, [], ◌∷◌, is_some, ◌≡◌, refl, arith,
  Result, ok, raise, out_of_fuel, str_eq,
}
use migrate_app_backend.Base.Dict.{lookup, lookup-insert}
use migrate_app_backend.Base.Effect.{pure, lift, unless, ◌>>=◌, ◌>>◌}
use migrate_app_backend.Base.Calls.{bind_elim}
use migrate_app_backend.Core.Constants.{MigrationStatus}
use migrate_app_backend.Models.{Migration, Database}
use migrate_app_backend.Migration.Executor.{Results}
use migrate_app_backend.Services.MigrationService.{
  save, get_or_404, or_404, can_start, is_running, started, cancelled, start_record, cancel_record,
  add_revoked, revoke, start_migration, cancel_migration,
}
use migrate_app_backend.Workers.MigrationTasks.{
  begin_run, begin_found, mark_failed, fail_found, record_progress, progress_found, finalise,
  finalise_found, finalised, failed,
}

-- A row that runs has a start, one that ended has an end, and one that failed has an error.
abbrev pub coherent : MigrationStatus → Option ℕ → Option ℕ → Option String → Bool
coherent MigrationStatus.running s c e = is_some s
coherent MigrationStatus.completed s c e = is_some c
coherent MigrationStatus.cancelled s c e = is_some c
coherent MigrationStatus.failed s c e = is_some c && is_some e
coherent _ s c e = true

abbrev pub is_coherent : Migration → Bool
is_coherent m = coherent m.status m.started_at m.completed_at m.error_message

abbrev pub IsCoherent : Database → Type 0
IsCoherent db =
    (id : String) (m : Migration) → lookup id db.migrations ≡ some m → is_coherent m ≡ true

save-IsCoherent :
    (id : String) (m : Migration) (db : Database)
    → IsCoherent db
    → is_coherent m ≡ true
    → IsCoherent (save id m db).1
save-IsCoherent id m db h c j n e = ground (arith, lookup-insert j id m db.migrations, h j n)

-- What writes to the rows: the two requests, and the sessions of the worker.
pub data Event : Type 0 where
  to_start : (id : String) (task : Result String) (committed : Result (Unit {0})) (now : ℕ) → Event
  to_cancel : (id : String) (sent committed : Result (Unit {0})) (now : ℕ) → Event
  to_begin : (id : String) (now : ℕ) → Event
  to_progress : (id table_name : String) (total : ℕ) → Event
  to_finalise : (id : String) (results : Results) (now : ℕ) → Event
  to_fail : (id error : String) (now : ℕ) → Event

module _ {C : Type 0} (load : Migration → Result C) where
  -- the database after a call, whether it returned or raised
  abbrev pub apply : Event → Database → Database
  apply (Event.to_start id task committed now) db = (start_migration id task committed now db).1
  apply (Event.to_cancel id sent committed now) db = (cancel_migration id sent committed now db).1
  apply (Event.to_begin id now) db = (begin_run load id now db).1
  apply (Event.to_progress id table_name total) db = (record_progress id table_name total db).1
  apply (Event.to_finalise id results now) db = (finalise id results now db).1
  apply (Event.to_fail id error now) db = (mark_failed id error now db).1

  abbrev pub apply_all : List Event → Database → Database
  apply_all [] db = db
  apply_all (e ∷ es) db = apply_all es (apply e db)

module _ (id : String) (now : ℕ) (db : Database) (h : IsCoherent db) where
  start_record-IsCoherent :
      (task : Result String) (committed : Result (Unit {0})) (m : Migration) (b : Bool)
      → IsCoherent (start_record id task committed now m b db).1
  unfolding start_record started
  start_record-IsCoherent (ok t) (ok u) m true = save-IsCoherent id (started m t now) db h refl
  start_record-IsCoherent (ok t) (raise e) m true = h
  start_record-IsCoherent (ok t) out_of_fuel m true = h
  start_record-IsCoherent (raise e) committed m true = h
  start_record-IsCoherent out_of_fuel committed m true = h
  start_record-IsCoherent task committed m false = h

  start-IsCoherent :
      (task : Result String) (committed : Result (Unit {0})) (o : Option Migration)
      → IsCoherent
          ((or_404 id o >>= λ m. start_record id task committed now m (can_start m.status)) db).1
  start-IsCoherent task committed none = h
  start-IsCoherent task committed (some m) =
      start_record-IsCoherent task committed m (can_start m.status)

  cancel_record-IsCoherent :
      (sent committed : Result (Unit {0})) (m : Migration) (b : Bool)
      → IsCoherent (cancel_record id sent committed now m b db).1
  unfolding cancel_record cancelled
  cancel_record-IsCoherent sent committed m false = h
  cancel_record-IsCoherent sent committed m true =
      bind_elim (λ p. IsCoherent p.1) (revoke m.celery_task_id sent) _ db
        (λ u e.
          bind_elim (λ p. IsCoherent p.1) (lift committed) _ (revoke m.celery_task_id sent db).1
            (λ v e'.
              save-IsCoherent id (cancelled m now) (revoke m.celery_task_id sent db).1
                (revoke-IsCoherent m.celery_task_id sent) refl)
            (λ r n n'. revoke-IsCoherent m.celery_task_id sent))
        (λ r n n'. revoke-IsCoherent m.celery_task_id sent)
    where
      revoke-IsCoherent :
          (o : Option String) (sent : Result (Unit {0})) → IsCoherent (revoke o sent db).1
      revoke-IsCoherent none sent = h
      revoke-IsCoherent (some t) sent = sent_or_not (str_eq t "") sent
        where
          sent_or_not :
              (b : Bool) (sent : Result (Unit {0}))
              → IsCoherent (unless b (lift sent >> add_revoked t) db).1
          sent_or_not true sent = h
          sent_or_not false (ok u) = h
          sent_or_not false (raise e) = h
          sent_or_not false out_of_fuel = h

  cancel-IsCoherent :
      (sent committed : Result (Unit {0})) (o : Option Migration)
      → IsCoherent
          ((or_404 id o >>= λ m. cancel_record id sent committed now m (is_running m.status)) db).1
  cancel-IsCoherent sent committed none = h
  cancel-IsCoherent sent committed (some m) =
      cancel_record-IsCoherent sent committed m (is_running m.status)

  load_save-IsCoherent :
      {C : Type 0} (r : Result C) (m : Migration)
      → is_coherent m ≡ true
      → IsCoherent ((lift r >>= λ c. (save id m >> pure c)) db).1
  load_save-IsCoherent (ok c) m k = save-IsCoherent id m db h k
  load_save-IsCoherent (raise e) m k = h
  load_save-IsCoherent out_of_fuel m k = h

  begin-IsCoherent :
      {C : Type 0} (load : Migration → Result C) (o : Option Migration)
      → IsCoherent (begin_found load id now o db).1
  unfolding begin_found
  begin-IsCoherent load none = h
  begin-IsCoherent load (some m) =
      load_save-IsCoherent (load m)
        (record m { status = MigrationStatus.running; started_at = some now }) refl

  progress-IsCoherent :
      (table_name : String) (total : ℕ) (o : Option Migration)
      → lookup id db.migrations ≡ o
      → IsCoherent (progress_found id table_name total o db).1
  unfolding progress_found
  progress-IsCoherent table_name total none e = h
  progress-IsCoherent table_name total (some m) e =
      save-IsCoherent id (record m { processed_rows = total; current_table = some table_name }) db h
        (h id m e)

  finalised_coherent :
      (results : Results) (m : Migration) (failures : List String)
      → is_coherent (finalised m results now failures) ≡ true
  unfolding finalised
  finalised_coherent results m [] = refl
  finalised_coherent results m (t ∷ ts) = refl

  finalise-IsCoherent :
      (results : Results) (o : Option Migration) → IsCoherent (finalise_found id results now o db).1
  unfolding finalise_found
  finalise-IsCoherent results none = h
  finalise-IsCoherent results (some m) =
      save-IsCoherent id (finalised m results now results.failed_tables) db h
        (finalised_coherent results m results.failed_tables)

  fail-IsCoherent :
      (error : String) (o : Option Migration) → IsCoherent (fail_found id error now o db).1
  unfolding fail_found failed
  fail-IsCoherent error none = h
  fail-IsCoherent error (some m) = save-IsCoherent id (failed m error now) db h refl

module _ {C : Type 0} (load : Migration → Result C) where
  apply-IsCoherent : (e : Event) (db : Database) → IsCoherent db → IsCoherent (apply load e db)
  unfolding start_migration get_or_404 cancel_migration begin_run record_progress finalise
      mark_failed
  apply-IsCoherent (Event.to_start id task committed now) db h =
      start-IsCoherent id now db h task committed (lookup id db.migrations)
  apply-IsCoherent (Event.to_cancel id sent committed now) db h =
      cancel-IsCoherent id now db h sent committed (lookup id db.migrations)
  apply-IsCoherent (Event.to_begin id now) db h =
      begin-IsCoherent id now db h load (lookup id db.migrations)
  apply-IsCoherent (Event.to_progress id table_name total) db h =
      progress-IsCoherent id 0 db h table_name total (lookup id db.migrations) refl
  apply-IsCoherent (Event.to_finalise id results now) db h =
      finalise-IsCoherent id now db h results (lookup id db.migrations)
  apply-IsCoherent (Event.to_fail id error now) db h =
      fail-IsCoherent id now db h error (lookup id db.migrations)

-- Whatever the requests and the worker's sessions do to the rows, in any order and for any
-- migrations, and whether or not each of them raises, the rows stay coherent: a row that is
-- `running` has the time of its start, one that is `completed`, `cancelled` or `failed` has the time
-- of its end, and one that is `failed` has its error.
pub apply_all-IsCoherent :
    {C : Type 0} (load : Migration → Result C) (es : List Event) (db : Database)
    → IsCoherent db
    → IsCoherent (apply_all load es db)
apply_all-IsCoherent load [] db h = h
apply_all-IsCoherent load (e ∷ es) db h =
    apply_all-IsCoherent load es (apply load e db) (apply-IsCoherent load e db h)
