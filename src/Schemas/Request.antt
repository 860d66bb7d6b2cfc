-- ===== src/Schemas/Request.antt =====
-- app/schemas/migration.py: the request that creates a migration.
use migrate_app_backend.Base.{
  String, List, [], ◌∷◌, Exception, Result, ok, raise, str_eq, if◌then◌else◌,
}
use migrate_app_backend.Base.Text.{strip}
use migrate_app_backend.Schemas.Connection.{ConnectionCredentials}
use migrate_app_backend.Schemas.Migration.{MigrationSettings}

-- `MigrationCreateRequest`
pub record MigrationCreateRequest : Type 0 where
  pub source : ConnectionCredentials
  pub destination : ConnectionCredentials
  pub tables : List String
  pub settings : MigrationSettings

-- `[t.strip() for t in v if t.strip()]`
unfoldable pub cleaned : List String → List String
cleaned [] = []
cleaned (t ∷ v) = let rest = cleaned v in if str_eq (strip t) "" then rest else strip t ∷ rest

unfoldable pub at_least_one : List String → Result (List String)
at_least_one [] = raise (Exception.value_error "At least one table name must be provided")
at_least_one (t ∷ ts) = ok (t ∷ ts)

-- `tables_not_empty`
unfoldable pub tables_not_empty : List String → Result (List String)
unfolding cleaned at_least_one
tables_not_empty v = at_least_one (cleaned v)
