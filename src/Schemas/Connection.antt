-- ===== src/Schemas/Connection.antt =====
-- app/schemas/connection.py: the credentials of a request, and what they need; and the choice of a
-- provider in app/providers/__init__.py.
pub mod Fields
use migrate_app_backend.Base.{
  ℕ, String, Option, none, some, Bool, true, false, not, ◌&&◌, ◌||◌, List, [], ◌∷◌, ◌++◌, Exception,
  Result, ok, raise, str_eq, if◌then◌else◌, leb,
}
use migrate_app_backend.Base.Text.{◌<>◌, join}
use migrate_app_backend.Base.Raise.{◌>>=◌}
use migrate_app_backend.Base.Int.{ℤ, pos, negsuc}
use migrate_app_backend.Core.Constants.{DatabaseType, ConnectionMethod, database_value}

-- `ConnectionCredentials`
pub record ConnectionCredentials : Type 0 where
  pub database_type : DatabaseType
  pub connection_method : ConnectionMethod
  pub database_url : Option String
  pub host : Option String
  pub port : Option ℤ
  pub database : Option String
  pub username : Option String
  pub password : Option String
  pub file_path : Option String

-- a text that is there and is not empty
abbrev pub is_given : Option String → Bool
is_given none = false
is_given (some s) = not (str_eq s "")

abbrev pub unless_given : String → Option String → List String
unless_given name o = if is_given o then [] else name ∷ []

-- the list `missing`
unfoldable pub missing_fields : ConnectionCredentials → List String
missing_fields c =
    unless_given "host" c.host
    ++ unless_given "database" c.database
    ++ unless_given "username" c.username
    ++ unless_given "password" c.password

unfoldable pub no_missing : ConnectionCredentials → List String → Result ConnectionCredentials
no_missing c [] = ok c
no_missing c (f ∷ fs) =
    raise (Exception.value_error ("Missing required credential fields: " <> join ", " (f ∷ fs)))

unfoldable pub validate_login : ConnectionCredentials → DatabaseType → Result ConnectionCredentials
unfolding no_missing missing_fields
validate_login c DatabaseType.sqlite =
    if is_given c.file_path
    then ok c
    else raise (Exception.value_error "file_path is required for SQLite credential connections")
validate_login c _ = no_missing c (missing_fields c)

unfoldable pub validate_method :
    ConnectionCredentials → ConnectionMethod → Result ConnectionCredentials
unfolding validate_login
validate_method c ConnectionMethod.url =
    if is_given c.database_url
    then ok c
    else raise (Exception.value_error "database_url is required when connection_method is 'url'")
validate_method c ConnectionMethod.credentials = validate_login c c.database_type

-- `validate_fields_for_method`
unfoldable pub validate_fields_for_method : ConnectionCredentials → Result ConnectionCredentials
unfolding validate_method
validate_fields_for_method c = validate_method c c.connection_method

-- `1 <= v <= 65535`
abbrev pub is_port : ℤ → Bool
is_port (pos n) = leb 1 n && leb n 65535
is_port (negsuc n) = false

-- `validate_port`
unfoldable pub validate_port : Option ℤ → Result (Option ℤ)
validate_port none = ok none
validate_port (some v) =
    if is_port v
    then ok (some v)
    else raise (Exception.value_error "port must be between 1 and 65535")

-- `ConnectionCredentials(…)`: the validator of the field, and then that of the model
unfoldable pub make_credentials : ConnectionCredentials → Result ConnectionCredentials
unfolding validate_port validate_fields_for_method
make_credentials c =
    validate_port c.port >>= λ port. validate_fields_for_method (record c { port = port })

-- What the fields of valid credentials are for.
abbrev pub is_usable : ConnectionCredentials → ConnectionMethod → DatabaseType → Bool
is_usable c ConnectionMethod.url t = is_given c.database_url
is_usable c ConnectionMethod.credentials DatabaseType.sqlite = is_given c.file_path
is_usable c ConnectionMethod.credentials _ =
    is_given c.host && is_given c.database && is_given c.username && is_given c.password
