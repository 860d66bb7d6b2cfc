-- ===== src/Services/MigrationService/Create/Atomic.antt =====
-- app/services/migration_service.py: a `create_migration` that fails leaves no trace in the database.
use migrate_app_backend.Base.{ℕ, String, Bool, true, false, List, ok, ◌≡◌, refl, arith, is_ok, ◌∙◌}
use migrate_app_backend.Base.Effect.{Act, pure, lift, Caught, returned, raised, ◌>>=◌, ◌>>◌}
use migrate_app_backend.Base.Calls.{Keeps, Keeps-bind, Keeps-caught, bind_elim}
use migrate_app_backend.Core.Constants.{database_value}
use migrate_app_backend.Schemas.Migration.{MigrationPlan}
use migrate_app_backend.Schemas.Request.{MigrationCreateRequest}
use migrate_app_backend.Migration.Value.{Python}
use migrate_app_backend.Migration.Planner.{build_plan}
use migrate_app_backend.Migration.Planner.Quiet.{build_plan-Keeps}
use migrate_app_backend.Models.{Migration, Database}
use migrate_app_backend.Providers.{Provider}
use migrate_app_backend.Providers.Session.{uncaught, opened}
use migrate_app_backend.Providers.Registry.{Drivers, get_provider}
use migrate_app_backend.Services.Credentials.{creds_to_dict}
use migrate_app_backend.Services.Stored.{Serializers}
use migrate_app_backend.Services.MigrationService.Create.{
  add_row, connected, plan_between, new_record, store_plan, create_between, create_migration,
}
use migrate_app_backend.Utils.Encryption.{encrypt_credentials}
use migrate_app_backend.Workers.System.{
  System, Runtime, Session, on_world, in_session, within, in_system,
}
use migrate_app_backend.Workers.System.Sessions.{in_session_refused}

add_row-refused :
    (id : String) (m : Migration) (db : Database)
    → is_ok (add_row id m db).0 ≡ false
    → (add_row id m db).1 ≡ db
unfolding add_row
add_row-refused id m db e = ground arith

-- What is called before a row is stored leaves the database alone.
module _ {W : Type 0} where
  abbrev application : System W → Database
  application s = s.db

  uncaught-application : {A : Type 0} (c : Caught A) → Keeps application (uncaught c)
  uncaught-application (returned a) = record { at = λ s. refl }
  uncaught-application (raised e) = record { at = λ s. refl }

  within-application :
      {P : Python} {A : Type 0} (p : Provider P W) (m : Act (System W) A)
      → Keeps application m
      → Keeps application (within p m)
  unfolding opened
  within-application p m k =
      Keeps-bind _ _ application (record { at = λ s. refl })
        λ u. Keeps-bind _ _ application (Keeps-caught application m k) λ c.
          Keeps-bind (on_world p.disconnect) (λ v. uncaught c) application
            (record { at = λ s. refl }) λ v. uncaught-application c

  plan_between-application :
      {P : Python} (tables : List String) (src dst : Provider P W)
      → Keeps application (plan_between tables src dst)
  unfolding plan_between
  plan_between-application tables src dst =
      within-application src (within dst (build_plan (in_system src) (in_system dst) tables)) (
        within-application dst (build_plan (in_system src) (in_system dst) tables) (
          build_plan-Keeps application (in_system src) (in_system dst)
            (record {
              source_schema = λ t. record { at = λ s. refl };
              destination_schema = λ t. record { at = λ s. refl };
              exists = λ t. record { at = λ s. refl };
            })
            tables))

  connected-application :
      {F : Type 0} (side : String) (r : Bool × String × F) → Keeps application (connected side r)
  unfolding connected
  connected-application side (true, text, latency) = record { at = λ s. refl }
  connected-application side (false, text, latency) = record { at = λ s. refl }

  -- a call that leaves the database alone unless it returns
  record IsAtomic {A : Type 0} (m : Act (System W) A) : Type 0 where
    pub at : (s : System W) → is_ok (m s).0 ≡ false → (m s).1.db ≡ s.db

  IsAtomic-bind :
      {A B : Type 0} (m : Act (System W) A) (f : A → Act (System W) B)
      → Keeps application m
      → ((a : A) → IsAtomic (f a))
      → IsAtomic (m >>= f)
  IsAtomic-bind m f k h = record {
    at = λ s.
        bind_elim (λ p. is_ok p.0 ≡ false → p.1.db ≡ s.db) m f s
          (λ a e n. (h a).at (m s).1 n ∙ k.at s) (λ r n n' n''. k.at s);
  }

module _ {P : Python} {W : Type 0} (runtime : Runtime P W) (drivers : Drivers P W)
    (stored : Serializers) (seeds : ℕ × ℕ) (req : MigrationCreateRequest) where
  add-IsAtomic :
      (id : String) (m : Migration)
      → IsAtomic {W = W} (in_session runtime Session.at_create (add_row id m) >> pure id)
  add-IsAtomic id m = record {
    at = λ s.
        bind_elim (λ p. is_ok p.0 ≡ false → p.1.db ≡ s.db)
          (in_session runtime Session.at_create (add_row id m)) (λ u. pure id) s (λ u e n. cc)
          (λ r n n' n''.
            in_session_refused runtime Session.at_create (add_row id m) s
              (add_row-refused id m s.db) n');
  }

  new_id : Act (System W) String
  new_id = on_world (λ w. let (i, w') = runtime.new_uuid w in (ok i, w'))

  store_plan-IsAtomic :
      (plan : MigrationPlan) → IsAtomic (store_plan runtime drivers stored seeds req plan)
  unfolding store_plan new_id
  store_plan-IsAtomic plan =
      IsAtomic-bind new_id _ (record { at = λ s. refl })
        λ id.
          IsAtomic-bind
            (lift (
              encrypt_credentials stored.crypto stored.encryption_key seeds.0
                (creds_to_dict req.source)))
            _ (record { at = λ s. refl })
            λ src.
              IsAtomic-bind
                (lift (
                  encrypt_credentials stored.crypto stored.encryption_key seeds.1
                    (creds_to_dict req.destination)))
                _ (record { at = λ s. refl })
                λ dst. add-IsAtomic id (new_record stored req plan src dst)

  create_between-IsAtomic :
      (src dst : Provider P W) → IsAtomic (create_between runtime drivers stored seeds req src dst)
  unfolding create_between
  create_between-IsAtomic src dst =
      IsAtomic-bind (on_world src.test_connection) _ (record { at = λ s. refl })
        λ a. IsAtomic-bind (connected "Source" a) _ (connected-application "Source" a) λ u.
          IsAtomic-bind (on_world dst.test_connection) _ (record { at = λ s. refl })
            λ b.
              IsAtomic-bind (connected "Destination" b) _ (connected-application "Destination" b)
                λ v.
                  IsAtomic-bind (plan_between req.tables src dst) _
                    (plan_between-application req.tables src dst) store_plan-IsAtomic

  -- Unless `create_migration` returns, it leaves the application's database as it was, whichever
  -- of its steps failed: no row is stored of a request whose databases could not be reached, whose
  -- plan could not be made, or whose credentials could not be encrypted.
  pub create_migration_atomic :
      (s : System W)
      → is_ok (create_migration runtime drivers stored seeds req s).0 ≡ false
      → (create_migration runtime drivers stored seeds req s).1.db ≡ s.db
  unfolding create_migration
  create_migration_atomic =
      (IsAtomic-bind
        (lift (
          get_provider drivers (database_value req.source.database_type)
            (creds_to_dict req.source)))
        _ (record { at = λ s. refl })
        λ src.
          IsAtomic-bind
            (lift (
              get_provider drivers (database_value req.destination.database_type)
                (creds_to_dict req.destination)))
            _ (record { at = λ s. refl }) λ dst. create_between-IsAtomic src dst).at
