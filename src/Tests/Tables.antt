-- ===== src/Tests/Tables.antt =====
-- The application's tables on a database that has the table of Alembic's own, and no index.
use migrate_app_backend.Base.{
  ◌≡◌, refl, String, none, some, true, false, str_eq, List, [], ◌∷◌, Exception, ok, if◌then◌else◌,
}
use migrate_app_backend.Base.Effect.{◌>>◌}
use migrate_app_backend.Ddl.{Operations, IsLawful, StoredColumn, string}
use migrate_app_backend.Ddl.Schema.{Schema, documented, written}
use migrate_app_backend.Alembic.{upgrade, downgrade, status_index}
use migrate_app_backend.Alembic.Steps.{IsReady}
use migrate_app_backend.Alembic.RoundTrip.{downgrade-upgrade}
use migrate_app_backend.Alembic.Agrees.{upgrade-init_db}
use migrate_app_backend.Models.Metadata.{init_db}

abbrev version_columns : List StoredColumn
version_columns =
    record {
      name = "version_num";
      type = string 32;
      primary_key = true;
      nullable = false;
      server_default = none;
    }
    ∷ []

abbrev versioned : Schema
versioned = record {
  tables = λ k. if str_eq k "alembic_version" then some version_columns else none;
  indexes = λ k. none;
}

abbrev taken : String → Exception
taken name = Exception.other_error name

abbrev operations : Operations Schema
operations = documented taken taken

versioned-IsReady : IsReady versioned
versioned-IsReady = record {
  connections = refl;
  migrations = refl;
  migration_logs = refl;
  status_index = refl;
  id_index = refl;
  created_index = refl;
  placed = λ k x e. cc;
}

operations-IsLawful : IsLawful (λ s. s) operations (documented taken taken)
operations-IsLawful = record {
  create_table = λ t. record { result = λ s. refl; state = λ s. refl };
  create_index = λ x. record { result = λ s. refl; state = λ s. refl };
  drop_index = λ name table_name. record { result = λ s. refl; state = λ s. refl };
  drop_table = λ name. record { result = λ s. refl; state = λ s. refl };
  create_all = λ ts. record { result = λ s. refl; state = λ s. refl };
}

downgrade-upgrade_example :
    let done = (upgrade operations >> downgrade operations) versioned in
    (done.0 ≡ ok tt) × (done.1 ≡ versioned)
downgrade-upgrade_example =
    downgrade-upgrade taken taken operations-IsLawful versioned versioned-IsReady

upgrade-init_db_example :
    let migrated = upgrade operations versioned in
    let made = init_db operations versioned in
    (migrated.0 ≡ ok tt)
    × (made.0 ≡ ok tt)
    × (migrated.1.tables ≡ made.1.tables)
    × (migrated.1.indexes ≡ written status_index.name (some status_index) made.1.indexes)
upgrade-init_db_example =
    upgrade-init_db taken taken operations-IsLawful versioned versioned-IsReady
