-- ===== src/Services/MigrationService/Start.antt =====
-- app/services/migration_service.py: what a start allows afterwards.
use migrate_app_backend.Base.{
  ℕ, String, Option, none, some, Bool, true, false, [], ◌∷◌, ◌++◌, Exception, Result, ok, raise,
  ◌≡◌, ◌∙◌, refl, ap, sym, eq_iff, arith,
}
use migrate_app_backend.Base.Dict.{lookup, insert, lookup-insert}
use migrate_app_backend.Base.Effect.{◌>>=◌}
use migrate_app_backend.Core.Constants.{status_value}
use migrate_app_backend.Models.{Migration, Database}
use migrate_app_backend.Services.MigrationService.{
  get_or_404, or_404, can_start, started, cancelled, start_record, start_migration,
}

-- the row and the queue after a start
abbrev after_start : String → String → ℕ → Migration → Database → Database
after_start id task_id now m db = record db {
  migrations = insert id (started m task_id now) db.migrations;
  queued = db.queued ++ (task_id, id) ∷ [];
}

module _ (id task_id : String) (now : ℕ) (r : String × String) (db db' : Database) where
  start_record-inv :
      (m : Migration) (b : Bool)
      → start_record id (ok task_id) (ok tt) now m b db ≡ (ok r, db')
      → db' ≡ after_start id task_id now m db
  unfolding start_record
  start_record-inv m true h = ap (λ (p : Result (String × String) × Database). p.1) (sym h)
  start_record-inv m false h = absurd cc (ap (λ (p : Result (String × String) × Database). p.0) h)

  start_found-inv :
      (o : Option Migration)
      → (or_404 id o >>= λ m. start_record id (ok task_id) (ok tt) now m (can_start m.status)) db
        ≡ (ok r, db')
      → (m : Migration) × (db' ≡ after_start id task_id now m db)
  start_found-inv none h = absurd cc (ap (λ (p : Result (String × String) × Database). p.0) h)
  start_found-inv (some m) h = (m, start_record-inv m (can_start m.status) h)

  start_migration-inv :
      start_migration id (ok task_id) (ok tt) now db ≡ (ok r, db')
      → (m : Migration) × (db' ≡ after_start id task_id now m db)
  unfolding start_migration get_or_404
  start_migration-inv h = start_found-inv (lookup id db.migrations) h

lookup-after_start :
    (id task_id : String) (now : ℕ) (m : Migration) (db : Database)
    → lookup id (after_start id task_id now m db).migrations ≡ some (started m task_id now)
lookup-after_start id task_id now m db =
    ground (arith, lookup-insert id id (started m task_id now) db.migrations, eq_iff id id)

start_found :
    (id : String) (task : Result String) (committed : Result (Unit {0})) (now : ℕ) (m : Migration)
    (db : Database)
    → lookup id db.migrations ≡ some m
    → start_migration id task committed now db
      ≡ start_record id task committed now m (can_start m.status) db
unfolding start_migration get_or_404
start_found id task committed now m db h =
    ap (λ o. (or_404 id o >>= λ n. start_record id task committed now n (can_start n.status)) db) h

start_started :
    (id : String) (task : Result String) (committed : Result (Unit {0})) (now : ℕ) (t : String)
    (n : ℕ) (m : Migration) (db : Database)
    → start_record id task committed now (started m t n) (can_start (started m t n).status) db
      ≡ (raise (Exception.value_error "Migration is in 'running' state and cannot be started."), db)
unfolding start_record started status_value
start_started id task committed now t n m db = refl

-- A migration that was started cannot be started again while its row stands as the start left it:
-- the second start, whatever its task and time, raises and changes neither the rows nor the queue.
pub second_start_refused :
    (id task_id : String) (now : ℕ) (r : String × String) (db db' : Database)
    → start_migration id (ok task_id) (ok tt) now db ≡ (ok r, db')
    → (other : Result String) (committed : Result (Unit {0})) (later : ℕ)
    → start_migration id other committed later db' ≡ (
      raise (Exception.value_error "Migration is in 'running' state and cannot be started."),
      db',
    )
second_start_refused id task_id now r db db' h other committed later =
    let (m, e) = start_migration-inv id task_id now r db db' h in
    let found : lookup id db'.migrations ≡ some (started m task_id now) =
      ap (λ d. lookup id d.migrations) e ∙ lookup-after_start id task_id now m db in
    start_found id other committed later (started m task_id now) db' found
    ∙ start_started id other committed later task_id now m db'

-- the rows and the revoked tasks after a cancellation
abbrev pub after_cancel : String → String → ℕ → Migration → Database → Database
after_cancel id task_id now m db = record db {
  migrations = insert id (cancelled m now) db.migrations;
  revoked = db.revoked ++ task_id ∷ [];
}
