-- ===== src/Services/SchemaService.antt =====
-- app/services/schema_service.py: the tables of a database and how many rows they have.
pub mod Lists
use migrate_app_backend.Base.{ℕ, String, Option, none, some, List, [], ◌∷◌, Result, ok, raise}
use migrate_app_backend.Base.Int.{ℤ, pos, negsuc}
use migrate_app_backend.Base.Effect.{
  Act, pure, throw, lift, caught, Caught, returned, raised, ◌>>=◌,
}
use migrate_app_backend.Core.Constants.{database_value}
use migrate_app_backend.Migration.Value.{Python}
use migrate_app_backend.Providers.{Provider}
use migrate_app_backend.Providers.Session.{opened}
use migrate_app_backend.Providers.Registry.{Drivers, get_provider}
use migrate_app_backend.Schemas.Connection.{ConnectionCredentials}
use migrate_app_backend.Services.Credentials.{creds_to_dict}

-- `TableInfo`, whose `schema_name` this service leaves out
pub record TableInfo : Type 0 where
  pub name : String
  pub rows : ℤ

-- `SchemaResponse`
pub record SchemaResponse : Type 0 where
  pub tables : List TableInfo
  pub database_type : String

-- the count, or -1
abbrev pub count_of : Caught ℕ → ℤ
count_of (returned n) = pos n
count_of (raised exc) = negsuc 0

module _ {P : Python} {W : Type 0} where
  unfoldable pub counted : Provider P W → List String → Act W (List TableInfo)
  counted provider [] = pure []
  counted provider (name ∷ names) = do
    count ← caught (provider.get_row_count name)
    tables ← counted provider names
    pure (record { name = name; rows = count_of count } ∷ tables)

  -- the body of the `async with` block
  unfoldable pub discover : Provider P W → Act W (List TableInfo)
  unfolding counted
  discover provider = do names ← provider.get_tables; counted provider names

  -- `SchemaService.get_tables`
  unfoldable pub get_tables : Drivers P W → ConnectionCredentials → Act W SchemaResponse
  unfolding discover
  get_tables drivers connection = do
    provider ←
        lift (
          get_provider drivers (database_value connection.database_type) (creds_to_dict connection))
    tables ← opened provider (discover provider)
    pure (record { tables = tables; database_type = database_value connection.database_type })
