-- ===== src/Providers/Registry/Reads.antt =====
-- app/providers/__init__.py: credentials from which a provider is made, or refused as not supported.
use migrate_app_backend.Base.{
  String, none, some, true, Result, ok, raise, out_of_fuel, is_ok, Exception, ◌≡◌, ok_of_is_ok,
}
use migrate_app_backend.Base.Dict.{lookup}
use migrate_app_backend.Base.Int.{ℤ}
use migrate_app_backend.Core.Constants.{DatabaseType, database_value}
use migrate_app_backend.Migration.Value.{Python}
use migrate_app_backend.Providers.{Provider}
use migrate_app_backend.Providers.Registry.{
  Drivers, MysqlParams, given, dsn_from, build_dsn, int_of, params_from, parse_credentials,
  make_provider, get_provider,
}
use migrate_app_backend.Providers.Registry.Kinds.{database_type_of-value}
use migrate_app_backend.Utils.Json.{Scalar, Object}

-- A provider for which `Q` holds, or the exception for a type that is not supported.
abbrev pub Accepted :
    {P : Python} {W : Type 0} → (Provider P W → Type 0) → Result (Provider P W) → Type 0
Accepted Q (ok p) = Q p
Accepted Q (raise (Exception.not_implemented m)) = Unit
Accepted Q (raise exc) = ⊥
Accepted Q out_of_fuel = ⊥

-- Credentials with a user, a password, a host, a database and a port, and no URL.
pub record IsLogin (o : Object) : Type 0 where
  pub no_url : given (lookup "database_url" o) ≡ none
  pub username : (x : Scalar) × (lookup "username" o ≡ some x)
  pub password : (x : Scalar) × (lookup "password" o ≡ some x)
  pub host : (x : Scalar) × (lookup "host" o ≡ some x)
  pub database : (x : Scalar) × (lookup "database" o ≡ some x)
  pub port : (n : ℤ) × (lookup "port" o ≡ some (Scalar.number n))

module _ {P : Python} {W : Type 0} (drivers : Drivers P W) (Q : Provider P W → Type 0)
    (postgres : (dsn : String) → Q (drivers.postgres dsn))
    (mysql : (params : MysqlParams) → Q (drivers.mysql params))
    (sqlite : (path : Scalar) → Q (drivers.sqlite path)) where
  make_provider_url :
      (t : DatabaseType) (o : Object) (url : String)
      → given (lookup "database_url" o) ≡ some url
      → is_ok (drivers.urlparse url) ≡ true
      → Accepted Q (make_provider drivers t o)
  unfolding make_provider build_dsn parse_credentials dsn_from params_from
  make_provider_url DatabaseType.postgres o url e h = rw e (postgres _)
  make_provider_url DatabaseType.mysql o url e h =
      let (parts, e') = ok_of_is_ok (drivers.urlparse url) h in rw (e, e') (mysql _)
  make_provider_url DatabaseType.sqlite o url e h = sqlite _
  make_provider_url DatabaseType.mssql o url e h = tt
  make_provider_url DatabaseType.mongodb o url e h = tt
  make_provider_url DatabaseType.oracle o url e h = tt
  make_provider_url DatabaseType.mariadb o url e h = tt

  make_provider_login :
      (t : DatabaseType) (o : Object) → IsLogin o → Accepted Q (make_provider drivers t o)
  unfolding make_provider build_dsn parse_credentials dsn_from params_from int_of
  make_provider_login DatabaseType.postgres o h =
      rw (h.no_url, h.username.1, h.password.1, h.host.1, h.database.1) (postgres _)
  make_provider_login DatabaseType.mysql o h = rw (h.no_url, h.port.1) (mysql _)
  make_provider_login DatabaseType.sqlite o h = sqlite _
  make_provider_login DatabaseType.mssql o h = tt
  make_provider_login DatabaseType.mongodb o h = tt
  make_provider_login DatabaseType.oracle o h = tt
  make_provider_login DatabaseType.mariadb o h = tt

  pub get_provider_url :
      (t : DatabaseType) (o : Object) (url : String)
      → given (lookup "database_url" o) ≡ some url
      → is_ok (drivers.urlparse url) ≡ true
      → Accepted Q (get_provider drivers (database_value t) o)
  unfolding get_provider
  get_provider_url t o url e h = rw (database_type_of-value t) (make_provider_url t o url e h)

  pub get_provider_login :
      (t : DatabaseType) (o : Object)
      → IsLogin o
      → Accepted Q (get_provider drivers (database_value t) o)
  unfolding get_provider
  get_provider_login t o h = rw (database_type_of-value t) (make_provider_login t o h)

  pub get_provider_sqlite :
      (o : Object) → Accepted Q (get_provider drivers (database_value DatabaseType.sqlite) o)
  unfolding get_provider make_provider
  get_provider_sqlite o = rw (database_type_of-value DatabaseType.sqlite) (sqlite _)
