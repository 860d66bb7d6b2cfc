-- ===== src/Services/ConnectionService/Accepts.antt =====
-- app/services/connection_service.py: the credentials of a valid request give a provider.
use migrate_app_backend.Base.{String, Option, none, some, true, is_ok, is_some, ◌≡◌, refl, arith}
use migrate_app_backend.Base.Dict.{lookup}
use migrate_app_backend.Base.Int.{ℤ}
use migrate_app_backend.Core.Constants.{DatabaseType, ConnectionMethod, database_value}
use migrate_app_backend.Migration.Value.{Python}
use migrate_app_backend.Providers.{Provider}
use migrate_app_backend.Providers.Registry.{Drivers, MysqlParams, given, get_provider}
use migrate_app_backend.Providers.Registry.Reads.{
  Accepted, IsLogin, get_provider_url, get_provider_login, get_provider_sqlite,
}
use migrate_app_backend.Schemas.Connection.{ConnectionCredentials, is_given, is_usable}
use migrate_app_backend.Services.Credentials.{optional_number}
use migrate_app_backend.Services.ConnectionService.{
  login_of, with_file, credentials_by, build_credentials,
}
use migrate_app_backend.Utils.Json.{Scalar, optional_text}

-- A login on a server names its port.
abbrev pub HasPort : ConnectionMethod → DatabaseType → Option ℤ → Type 0
HasPort ConnectionMethod.url t port = Unit
HasPort ConnectionMethod.credentials DatabaseType.sqlite port = Unit
HasPort ConnectionMethod.credentials t port = is_some port ≡ true

given_text :
    (o : Option String)
    → is_given o ≡ true
    → (s : String) × (given (some (optional_text o)) ≡ some s) × (o ≡ some s)
given_text none h = cc
given_text (some s) h = (s, ground arith, refl)

port_number :
    (o : Option ℤ)
    → is_some o ≡ true
    → (n : ℤ) × (some (optional_number o) ≡ some (Scalar.number n))
port_number none h = cc
port_number (some n) h = (n, refl)

login_of-IsLogin : (req : ConnectionCredentials) → is_some req.port ≡ true → IsLogin (login_of req)
unfolding lookup
login_of-IsLogin req h = record {
  no_url = refl;
  username = (optional_text req.username, refl);
  password = (optional_text req.password, refl);
  host = (optional_text req.host, refl);
  database = (optional_text req.database, refl);
  port = port_number req.port h;
}

module _ {P : Python} {W : Type 0} (drivers : Drivers P W) (Q : Provider P W → Type 0)
    (postgres : (dsn : String) → Q (drivers.postgres dsn))
    (mysql : (params : MysqlParams) → Q (drivers.mysql params))
    (sqlite : (path : Scalar) → Q (drivers.sqlite path)) where
  with_file-Accepted :
      (req : ConnectionCredentials) (t : DatabaseType)
      → HasPort ConnectionMethod.credentials t req.port
      → Accepted Q (get_provider drivers (database_value t) (with_file req t))
  unfolding with_file
  with_file-Accepted req DatabaseType.sqlite h =
      get_provider_sqlite drivers Q postgres mysql sqlite _
  with_file-Accepted req DatabaseType.postgres h =
      get_provider_login drivers Q postgres mysql sqlite _ _ (login_of-IsLogin req h)
  with_file-Accepted req DatabaseType.mysql h =
      get_provider_login drivers Q postgres mysql sqlite _ _ (login_of-IsLogin req h)
  with_file-Accepted req DatabaseType.mssql h =
      get_provider_login drivers Q postgres mysql sqlite _ _ (login_of-IsLogin req h)
  with_file-Accepted req DatabaseType.mongodb h =
      get_provider_login drivers Q postgres mysql sqlite _ _ (login_of-IsLogin req h)
  with_file-Accepted req DatabaseType.oracle h =
      get_provider_login drivers Q postgres mysql sqlite _ _ (login_of-IsLogin req h)
  with_file-Accepted req DatabaseType.mariadb h =
      get_provider_login drivers Q postgres mysql sqlite _ _ (login_of-IsLogin req h)

  credentials_by-Accepted :
      (req : ConnectionCredentials) (m : ConnectionMethod)
      → is_usable req m req.database_type ≡ true
      → HasPort m req.database_type req.port
      → ((url : String) → req.database_url ≡ some url → is_ok (drivers.urlparse url) ≡ true)
      → Accepted Q (get_provider drivers (database_value req.database_type) (credentials_by req m))
  unfolding credentials_by lookup
  credentials_by-Accepted req ConnectionMethod.url u h parses =
      let (url, e, same) = given_text req.database_url u in
      get_provider_url drivers Q postgres mysql sqlite req.database_type _ url e (parses url same)
  credentials_by-Accepted req ConnectionMethod.credentials u h parses =
      with_file-Accepted req req.database_type h

  -- From the credentials of a valid request a provider is made, or the type is refused.
  pub get_provider-Accepted :
      (req : ConnectionCredentials)
      → is_usable req req.connection_method req.database_type ≡ true
      → HasPort req.connection_method req.database_type req.port
      → ((url : String) → req.database_url ≡ some url → is_ok (drivers.urlparse url) ≡ true)
      → Accepted Q (get_provider drivers (database_value req.database_type) (build_credentials req))
  unfolding build_credentials
  get_provider-Accepted req = credentials_by-Accepted req req.connection_method
