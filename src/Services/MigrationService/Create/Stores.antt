-- ===== src/Services/MigrationService/Create/Stores.antt =====
-- app/services/migration_service.py: what `create_migration` leaves in the database, and what a
-- worker reads of it.
use mathlib.Core.Path.{subst}
use migrate_app_backend.Base.{
  ◌∙◌, ℕ, String, some, length, Result, ok, eq_iff, ◌≡◌, ◌≢◌, refl, arith, ap,
}
use migrate_app_backend.Base.Dict.{lookup, lookup-insert}
use migrate_app_backend.Base.Effect.{Act, pure, lift, ok-injective, ◌>>=◌, ◌>>◌}
use migrate_app_backend.Base.Calls.{bind_elim}
use migrate_app_backend.Core.Constants.{MigrationStatus, database_value}
use migrate_app_backend.Schemas.Migration.{MigrationPlan, validate_settings}
use migrate_app_backend.Schemas.Request.{MigrationCreateRequest}
use migrate_app_backend.Migration.Value.{Python}
use migrate_app_backend.Models.{Migration, Database}
use migrate_app_backend.Providers.Registry.{Drivers, get_provider}
use migrate_app_backend.Services.Credentials.{creds_to_dict}
use migrate_app_backend.Services.Stored.{Serializers, TaskConfig, text_or, load_config}
use migrate_app_backend.Services.MigrationService.Create.{
  add_row, connected, plan_between, new_record, store_plan, create_between, create_migration,
}
use migrate_app_backend.Utils.Encryption.{
  IsFaithful, encrypt_credentials, decrypt-encrypt_credentials,
}
use migrate_app_backend.Workers.System.{System, Runtime, Session, on_world, in_session}
use migrate_app_backend.Workers.System.Sessions.{in_session_returned}

-- What the libraries document of the parts of a request: each loads as it was dumped, no JSON is the
-- empty text, and the cipher and the credentials are faithful.
pub record Loads (stored : Serializers) (req : MigrationCreateRequest) : Type 0 where
  pub tables : stored.loads_tables (stored.dumps_tables req.tables) ≡ ok req.tables
  pub tables_text : stored.dumps_tables req.tables ≢ ""
  pub settings : stored.loads_settings (stored.dumps_settings req.settings) ≡ ok req.settings
  pub settings_text : stored.dumps_settings req.settings ≢ ""
  pub source : IsFaithful stored.crypto (creds_to_dict req.source)
  pub destination : IsFaithful stored.crypto (creds_to_dict req.destination)

-- the request, as a worker needs it
abbrev pub config_of : MigrationCreateRequest → TaskConfig
config_of req = record {
  tables = req.tables;
  settings = req.settings;
  src_creds = creds_to_dict req.source;
  dst_creds = creds_to_dict req.destination;
}

-- The row waits for its start, and a worker that loads it gets the request.
pub record Holds (stored : Serializers) (req : MigrationCreateRequest) (m : Migration)
    : Type 0 where
  pub status : m.status ≡ MigrationStatus.pending
  pub total_tables : m.total_tables ≡ length req.tables
  pub config : load_config stored m ≡ ok (config_of req)

text_or_same : (d t : String) → t ≢ "" → text_or d (some t) ≡ t
text_or_same d t ne = ground (arith, eq_iff t "")

module _ (stored : Serializers) (req : MigrationCreateRequest) (h : Loads stored req)
    (valid : validate_settings stored.validation_error req.settings ≡ ok req.settings) where
  new_record-Holds :
      (plan : MigrationPlan) (seeds : ℕ × ℕ) (src dst : String)
      → encrypt_credentials stored.crypto stored.encryption_key seeds.0 (creds_to_dict req.source)
        ≡ ok src
      → encrypt_credentials stored.crypto stored.encryption_key seeds.1
          (creds_to_dict req.destination)
        ≡ ok dst
      → Holds stored req (new_record stored req plan src dst)
  unfolding new_record load_config
  new_record-Holds plan seeds src dst e e' = record {
    status = refl;
    total_tables = refl;
    config =
        rw
          (
            text_or_same "[]" (stored.dumps_tables req.tables) h.tables_text,
            h.tables,
            text_or_same "{}" (stored.dumps_settings req.settings) h.settings_text,
            h.settings,
            valid,
            decrypt-encrypt_credentials stored.crypto stored.encryption_key
                (creds_to_dict req.source) h.source seeds.0 src e,
            decrypt-encrypt_credentials stored.crypto stored.encryption_key
                (creds_to_dict req.destination) h.destination seeds.1 dst e',
          )
          refl;
  }

add_row-lookup :
    (id : String) (m : Migration) (db : Database)
    → (add_row id m db).0 ≡ ok tt
    → lookup id (add_row id m db).1.migrations ≡ some m
unfolding add_row
add_row-lookup id m db e = ground (arith, lookup-insert id id m db.migrations, eq_iff id id)

module _ {P : Python} {W : Type 0} (runtime : Runtime P W) (drivers : Drivers P W)
    (stored : Serializers) (seeds : ℕ × ℕ) (req : MigrationCreateRequest) where
  -- the row of the id that was returned
  abbrev Created : Result String × System W → Type 0
  Created p =
      (id : String)
      → p.0 ≡ ok id
      → (m : Migration) × (lookup id p.1.db.migrations ≡ some m) × Holds stored req m

  -- if it returns an id, then the row is there
  record Creates (m : Act (System W) String) : Type 0 where
    pub at : (s : System W) → Created (m s)

  pass_on :
      {A : Type 0} (m : Act (System W) A) (f : A → Act (System W) String)
      → ((a : A) → Creates (f a))
      → Creates (m >>= f)
  pass_on m f k = record {
    at = λ s. bind_elim Created m f s (λ a e. (k a).at (m s).1) (λ r n n' id e. cc);
  }

  pass_lift :
      {A : Type 0} (r : Result A) (f : A → Act (System W) String)
      → ((a : A) → r ≡ ok a → Creates (f a))
      → Creates (lift r >>= f)
  pass_lift r f k = record {
    at = λ s. bind_elim Created (lift r) f s (λ a e. (k a e).at s) (λ r n n' id e. cc);
  }

  added :
      (id : String) (m : Migration)
      → Holds stored req m
      → Creates (in_session runtime Session.at_create (add_row id m) >> pure id)
  added id m h = record {
    at = λ s.
        bind_elim Created (in_session runtime Session.at_create (add_row id m)) (λ u. pure id) s
          (λ u done j same.
            let (done', written) =
              in_session_returned runtime Session.at_create (add_row id m) s u done in
            (
              m,
              subst
                  (λ k.
                    lookup k (in_session runtime Session.at_create (add_row id m) s).1.db.migrations
                    ≡ some m)
                  (ok-injective same)
                  (ap (λ (d : Database). lookup id d.migrations) written
                    ∙ add_row-lookup id m s.db done'),
              h,
            ))
          (λ r n n' j same. cc);
  }

  module _ (h : Loads stored req)
      (valid : validate_settings stored.validation_error req.settings ≡ ok req.settings) where
    store_plan-Creates :
        (plan : MigrationPlan) → Creates (store_plan runtime drivers stored seeds req plan)
    unfolding store_plan
    store_plan-Creates plan =
        pass_on (on_world (λ w. let (i, w') = runtime.new_uuid w in (ok i, w'))) _ λ id.
          pass_lift
            (encrypt_credentials stored.crypto stored.encryption_key seeds.0
              (creds_to_dict req.source))
            _
            λ src e.
              pass_lift
                (encrypt_credentials stored.crypto stored.encryption_key seeds.1
                  (creds_to_dict req.destination))
                _
                λ dst e'.
                  added id (new_record stored req plan src dst)
                    (new_record-Holds stored req h valid plan seeds src dst e e')

    -- Of a valid request, with libraries that load what they dumped and decrypt what they encrypted
    -- (`Loads`): if `create_migration` returns an id, then its row is there, it is `pending`, it
    -- counts the request's tables, and the configuration that a worker's task reads from it is
    -- the request's: its tables, its settings, and the credentials of both databases.
    pub create_migration-load_config :
        (s t : System W) (id : String)
        → create_migration runtime drivers stored seeds req s ≡ (ok id, t)
        → (m : Migration) × (lookup id t.db.migrations ≡ some m) × Holds stored req m
    unfolding create_migration create_between
    create_migration-load_config s t id e =
        subst
          (λ (p : Result String × System W).
            (m : Migration) × (lookup id p.1.db.migrations ≡ some m) × Holds stored req m)
          e
          ((pass_on
              (lift (
                get_provider drivers (database_value req.source.database_type)
                  (creds_to_dict req.source)))
              _
              (λ src.
                pass_on
                  (lift (
                    get_provider drivers (database_value req.destination.database_type)
                      (creds_to_dict req.destination)))
                  _
                  λ dst. pass_on (on_world src.test_connection) _ λ a.
                    pass_on (connected "Source" a) _ λ u.
                      pass_on (on_world dst.test_connection) _ λ b.
                        pass_on (connected "Destination" b) _
                          λ v. pass_on (plan_between req.tables src dst) _ store_plan-Creates)).at
            s id (ap (λ (p : Result String × System W). p.0) e))
