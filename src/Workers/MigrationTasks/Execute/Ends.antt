-- ===== src/Workers/MigrationTasks/Execute/Ends.antt =====
-- app/workers/migration_tasks.py: a task comes to its end.
use migrate_app_backend.Base.{
  ℕ, ◌≤◌, String, Option, none, some, Bool, true, false, List, [], ok, raise, out_of_fuel,
  Exception, ◌≡◌, ◌≢◌, refl, arith, if◌then◌else◌,
}
use migrate_app_backend.Base.Raise.{>>=-eq-ok}
use migrate_app_backend.Base.Dict.{lookup}
use migrate_app_backend.Base.Effect.{Act, Caught, returned, raised, ok-injective}
use migrate_app_backend.Base.Calls.{Terminates, Terminates-pure, Terminates-caught, Terminates-bind}
use migrate_app_backend.Schemas.Migration.{TableSchema, MigrationSettings, validate_settings}
use migrate_app_backend.Migration.Value.{Python, Row}
use migrate_app_backend.Migration.Mapper.Ends.{IsResponding}
use migrate_app_backend.Migration.Executor.{Results}
use migrate_app_backend.Models.{Migration, Database}
use migrate_app_backend.Providers.{Provider}
use migrate_app_backend.Providers.Session.{uncaught, opened}
use migrate_app_backend.Providers.Registry.{Drivers, MysqlParams}
use migrate_app_backend.Providers.Registry.Makes.{IsReading}
use migrate_app_backend.Services.Stored.{Serializers, TaskConfig, text_or, load_config}
use migrate_app_backend.Utils.Json.{Scalar}
use migrate_app_backend.Utils.Encryption.{decrypt_credentials}
use migrate_app_backend.Websockets.Payload.{failed_payload}
use migrate_app_backend.Workers.System.{
  System, Runtime, Session, on_world, on_db, in_session, send, within,
}
use migrate_app_backend.Workers.MigrationTasks.{
  mark_failed, fail_found, record_progress, progress_found, finalise, finalise_found,
}
use migrate_app_backend.Workers.MigrationTasks.Execute.{
  report_failed, on_progress, elapsed, add_log, on_log,
}

-- Every call of a provider comes back, and no table has a row at or after `size`.
pub record IsServing {P : Python} {W : Type 0} (p : Provider P W) (size : ℕ) : Type 0 where
  pub connects : Terminates p.connect
  pub disconnects : Terminates p.disconnect
  pub schemas : (t : String) → Terminates (p.get_table_schema t)
  pub fetches :
      (t : String) (o n : ℕ) (cs : Option (List String)) → Terminates (p.fetch_batch t o n cs)
  pub exhausted :
      (t : String) (o n : ℕ) (cs : Option (List String)) (w : W) (batch : List (Row P))
      → size ≤ o
      → (p.fetch_batch t o n cs w).0 ≡ ok batch
      → batch ≡ []
  pub creates : (t : TableSchema) → Terminates (p.create_table t)
  pub inserts : (t : String) (rows : List (Row P)) → Terminates (p.insert_batch t rows)
  pub truncates : (t : String) → Terminates (p.truncate_table t)
  pub exists : (t : String) → Terminates (p.table_exists t)

-- What a task needs so that it ends: the libraries' calls come back, and so do those of the
-- providers that the drivers make.
pub record IsServed {P : Python} {W : Type 0} (runtime : Runtime P W) (drivers : Drivers P W)
    (stored : Serializers) (size : ℕ) : Type 0 where
  pub values : IsResponding P
  pub sleeps : (n : ℕ) → Terminates (runtime.sleep n)
  pub sessions : (k : Session) → Terminates (runtime.session k)
  pub loads : (m : Migration) → load_config stored m ≢ out_of_fuel
  pub reads : IsReading drivers
  pub postgres : (dsn : String) → IsServing (drivers.postgres dsn) size
  pub mysql : (params : MysqlParams) → IsServing (drivers.mysql params) size
  pub sqlite : (path : Scalar) → IsServing (drivers.sqlite path) size

chosen :
    (b : Bool) (s s' : MigrationSettings) (e : Exception)
    → (if b then ok s else raise e) ≡ ok s'
    → (b ≡ true) × (s ≡ s')
chosen true s s' e h = (refl, ok-injective h)
chosen false s s' e h = cc

validated :
    (text : String) (s s' : MigrationSettings)
    → validate_settings text s ≡ ok s'
    → s'.max_retries ≤ 10
unfolding validate_settings
validated text s s' h =
    let (yes_it_is, same) = chosen _ s s' (Exception.value_error text) h in
    let few : s.max_retries ≤ 10 = ground arith in rw (← same) few

-- A configuration that was loaded was validated.
pub load_config-retries :
    (stored : Serializers) (m : Migration) (c : TaskConfig)
    → load_config stored m ≡ ok c
    → c.settings.max_retries ≤ 10
unfolding load_config
load_config-retries stored m c h =
    let (tables, e, h1) = >>=-eq-ok (stored.loads_tables (text_or "[]" m.tables_config)) _ h in
    let (raw, e', h2) = >>=-eq-ok (stored.loads_settings (text_or "{}" m.settings)) _ h1 in
    let (settings, e'', h3) = >>=-eq-ok (validate_settings stored.validation_error raw) _ h2 in
    let (src, f, h4) =
      >>=-eq-ok (decrypt_credentials stored.crypto stored.encryption_key m.source_connection) _
        h3 in
    let (dst, f', h5) =
      >>=-eq-ok (decrypt_credentials stored.crypto stored.encryption_key m.destination_connection) _
        h4 in
    let bound : settings.max_retries ≤ 10 = validated stored.validation_error raw settings e'' in
    rw (← ok-injective h5) bound

mark_failed-Terminates : (id error : String) (t : ℕ) → Terminates (mark_failed id error t)
unfolding mark_failed fail_found
mark_failed-Terminates id error t = record { at = λ db. found (lookup id db.migrations) db }
  where
    found : (o : Option Migration) (db : Database) → (fail_found id error t o db).0 ≢ out_of_fuel
    found none db p = cc
    found (some m) db p = cc

progress-Terminates : (id table : String) (n : ℕ) → Terminates (record_progress id table n)
unfolding record_progress progress_found
progress-Terminates id table n = record { at = λ db. found (lookup id db.migrations) db }
  where
    found :
        (o : Option Migration) (db : Database) → (progress_found id table n o db).0 ≢ out_of_fuel
    found none db p = cc
    found (some m) db p = cc

pub finalise-Terminates : (id : String) (r : Results) (t : ℕ) → Terminates (finalise id r t)
unfolding finalise finalise_found
finalise-Terminates id r t = record { at = λ db. found (lookup id db.migrations) db }
  where
    found : (o : Option Migration) (db : Database) → (finalise_found id r t o db).0 ≢ out_of_fuel
    found none db p = cc
    found (some m) db p = cc

module _ {W : Type 0} where
  pub world-Terminates : {A : Type 0} (m : Act W A) → Terminates m → Terminates (on_world m)
  world-Terminates m h = record { at = λ s. h.at s.world }

  pub db-Terminates :
      {A : Type 0} (m : Act Database A) → Terminates m → Terminates {S = System W} (on_db m)
  db-Terminates m h = record { at = λ s. h.at s.db }

  pub in_provider :
      {P : Python} {A : Type 0} (p : Provider P W) {size : ℕ} (m : Act (System W) A)
      → IsServing p size
      → Terminates m
      → Terminates (within p m)
  unfolding opened
  in_provider p m h k = Terminates-bind _ _ (world-Terminates p.connect h.connects) λ u.
      Terminates-bind _ _ (Terminates-caught m k) λ c.
        Terminates-bind (on_world p.disconnect) (λ v. uncaught c)
          (world-Terminates p.disconnect h.disconnects) λ v. passed c
    where
      passed : {A : Type 0} (c : Caught A) → Terminates {S = System W} (uncaught c)
      passed (returned a) = Terminates-pure a
      passed (raised e) = record { at = λ s q. cc }

module _ {P : Python} {W : Type 0} (runtime : Runtime P W) (id : String)
    (sessions : (k : Session) → Terminates (runtime.session k)) where
  pub session-Terminates :
      {A : Type 0} (k : Session) (m : Act Database A)
      → Terminates m
      → Terminates (in_session runtime k m)
  session-Terminates k m h =
      Terminates-bind (on_world (runtime.session k)) (λ u. on_db m)
        (world-Terminates _ (sessions k)) (λ u. db-Terminates m h)

  pub report_failed-Terminates : (error : String) → Terminates (report_failed runtime id error)
  unfolding report_failed
  report_failed-Terminates error = record {
    at = λ s.
        (Terminates-bind
            (in_session runtime Session.at_failure (mark_failed id error (runtime.now s.world)))
            (λ u. send id (failed_payload id error))
            (session-Terminates Session.at_failure _
              (mark_failed-Terminates id error (runtime.now s.world)))
            λ u. record { at = λ t q. cc }).at
          s;
  }

  pub on_progress-Terminates :
      (total : ℕ) (timer : P.Float) (table : String) (n k : ℕ) (e : Option String)
      → Terminates (on_progress runtime id total timer table n k e)
  unfolding on_progress elapsed
  on_progress-Terminates total timer table n k e = record {
    at = λ s.
        (Terminates-bind (in_session runtime Session.at_progress (record_progress id table k)) _
            (session-Terminates Session.at_progress _ (progress-Terminates id table k))
            λ u. record { at = λ t q. cc }).at
          s;
  }

  pub on_log-Terminates :
      (level text : String) (table : Option String)
      → Terminates (on_log runtime id level text table)
  unfolding on_log
  on_log-Terminates level text table = record {
    at = λ s.
        (Terminates-bind
            (in_session runtime Session.at_log (add_log runtime id level text table _ _)) _
            (session-Terminates Session.at_log _ (record { at = λ t q. cc }))
            λ u. record { at = λ t q. cc }).at
          (record s { world = (runtime.new_uuid s.world).1 });
  }
