-- ===== src/Services/MigrationService/Create.antt =====
-- app/services/migration_service.py: `create_migration`. The id that `uuid4` makes comes from the
-- runtime, and the randomness of the two encryptions is an argument.
pub mod Stores
pub mod Atomic
use migrate_app_backend.Base.{
  ℕ, String, Option, none, some, Bool, true, false, List, [], ◌∷◌, length, Result, ok, raise,
  out_of_fuel, Exception, if◌then◌else◌,
}
use migrate_app_backend.Base.Text.{◌<>◌}
use migrate_app_backend.Base.Dict.{insert, contains}
use migrate_app_backend.Base.Effect.{Act, pure, throw, lift, ◌>>=◌, ◌>>◌}
use migrate_app_backend.Core.Constants.{MigrationStatus, database_value}
use migrate_app_backend.Schemas.Connection.{ConnectionCredentials}
use migrate_app_backend.Schemas.Migration.{MigrationPlan}
use migrate_app_backend.Schemas.Request.{MigrationCreateRequest}
use migrate_app_backend.Migration.Value.{Python}
use migrate_app_backend.Migration.Planner.{build_plan}
use migrate_app_backend.Models.{Migration, Database}
use migrate_app_backend.Providers.{Provider}
use migrate_app_backend.Providers.Registry.{Drivers, get_provider}
use migrate_app_backend.Services.Credentials.{creds_to_dict}
use migrate_app_backend.Services.Stored.{Serializers}
use migrate_app_backend.Services.MigrationService.{save}
use migrate_app_backend.Utils.Encryption.{encrypt_credentials}
use migrate_app_backend.Workers.System.{
  System, Runtime, Session, on_world, in_session, within, in_system,
}

duplicate_key : Exception
duplicate_key = Exception.other_error "duplicate key value violates unique constraint"

-- `db.add(record)` and `db.commit()`: a key that is there is refused
unfoldable pub add_row : String → Migration → Act Database (Unit {0})
unfolding duplicate_key
add_row id m db = if contains id db.migrations then (raise duplicate_key, db) else save id m db

-- what follows `test_connection`
unfoldable pub connected : {S F : Type 0} → String → Bool × String × F → Act S (Unit {0})
connected side (true, text, latency) = pure tt
connected side (false, text, latency) =
    throw (Exception.value_error (side <> " connection failed: " <> text))

-- the plan, made while both databases are connected
unfoldable pub plan_between :
    {P : Python} {W : Type 0}
    → List String
    → Provider P W
    → Provider P W
    → Act (System W) MigrationPlan
plan_between tables src dst =
    within src (within dst (build_plan (in_system src) (in_system dst) tables))

module _ (stored : Serializers) (req : MigrationCreateRequest) (plan : MigrationPlan) where
  -- `Migration(…)`, of the two tokens
  unfoldable pub new_record : String → String → Migration
  new_record source_connection destination_connection = record {
    status = MigrationStatus.pending;
    source_connection = source_connection;
    destination_connection = destination_connection;
    tables_config = some (stored.dumps_tables req.tables);
    migration_plan = some (stored.dumps_plan plan);
    settings = some (stored.dumps_settings req.settings);
    total_tables = length req.tables;
    completed_tables = 0;
    total_rows = plan.total_rows;
    processed_rows = 0;
    current_table = none;
    started_at = none;
    completed_at = none;
    celery_task_id = none;
    error_message = none;
  }

module _ {P : Python} {W : Type 0} (runtime : Runtime P W) (drivers : Drivers P W)
    (stored : Serializers) (seeds : ℕ × ℕ) (req : MigrationCreateRequest) where
  -- from the new id to the commit
  unfoldable pub store_plan : MigrationPlan → Act (System W) String
  unfolding add_row new_record
  store_plan plan = do
    id ← on_world (λ w. let (i, w') = runtime.new_uuid w in (ok i, w'))
    src ←
        lift (
          encrypt_credentials stored.crypto stored.encryption_key seeds.0
            (creds_to_dict req.source))
    dst ← lift (
        encrypt_credentials stored.crypto stored.encryption_key seeds.1
          (creds_to_dict req.destination))
    in_session runtime Session.at_create (add_row id (new_record stored req plan src dst))
    pure id

  -- from the two providers on
  unfoldable pub create_between : Provider P W → Provider P W → Act (System W) String
  unfolding connected plan_between store_plan
  create_between src dst = do
    src_test ← on_world src.test_connection
    connected "Source" src_test
    dst_test ← on_world dst.test_connection
    connected "Destination" dst_test
    plan ← plan_between req.tables src dst
    store_plan plan

  -- `create_migration`
  unfoldable pub create_migration : Act (System W) String
  unfolding create_between
  create_migration = do
    src ←
        lift (
          get_provider drivers (database_value req.source.database_type) (creds_to_dict req.source))
    dst ← lift (
        get_provider drivers (database_value req.destination.database_type)
          (creds_to_dict req.destination))
    create_between src dst
