-- ===== src/Services/Stored.antt =====
-- What a migration's row stores of its request (app/services/migration_service.py), and what the
-- worker reads of it (app/workers/migration_tasks.py).
use migrate_app_backend.Base.{String, Option, none, some, List, Result, ok, str_eq, if◌then◌else◌}
use migrate_app_backend.Base.Raise.{◌>>=◌}
use migrate_app_backend.Schemas.Migration.{MigrationSettings, MigrationPlan, validate_settings}
use migrate_app_backend.Models.{Migration}
use migrate_app_backend.Utils.Json.{Object}
use migrate_app_backend.Utils.Encryption.{Crypto, decrypt_credentials}

-- `json` on the list of tables, pydantic's JSON of the settings and of the plan, and the text of its
-- errors. A loader raises for what is no JSON of its kind.
pub record Serializers : Type 1 where
  pub crypto : Crypto
  pub encryption_key : String
  pub dumps_tables : List String → String
  pub loads_tables : String → Result (List String)
  pub dumps_settings : MigrationSettings → String
  pub loads_settings : String → Result MigrationSettings
  pub dumps_plan : MigrationPlan → String
  pub validation_error : String

-- What the task reads from its row.
pub record TaskConfig : Type 0 where
  pub tables : List String
  pub settings : MigrationSettings
  pub src_creds : Object
  pub dst_creds : Object

-- `x or d`
abbrev pub text_or : String → Option String → String
text_or d none = d
text_or d (some t) = if str_eq t "" then d else t

-- the loading of its configuration in `_execute`
unfoldable pub load_config : Serializers → Migration → Result TaskConfig
load_config s m = s.loads_tables (text_or "[]" m.tables_config) >>= λ tables.
    s.loads_settings (text_or "{}" m.settings) >>= λ raw.
    validate_settings s.validation_error raw >>= λ settings.
    decrypt_credentials s.crypto s.encryption_key m.source_connection >>= λ src_creds.
    decrypt_credentials s.crypto s.encryption_key m.destination_connection >>= λ dst_creds.
    ok (record {
      tables = tables;
      settings = settings;
      src_creds = src_creds;
      dst_creds = dst_creds;
    })
