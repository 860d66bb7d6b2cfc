-- ===== src/Providers/Registry.antt =====
-- app/providers/__init__.py, and how each provider in app/providers reads its credentials.
pub mod Kinds
pub mod Makes
pub mod Reads
pub mod Prefixes
use Prim.Native.String
use migrate_app_backend.Base.{
  ℕ, zero, suc, String, Option, none, some, Bool, true, false, not, ◌||◌, ◌==◌, List, [], ◌∷◌,
  Exception, Result, ok, raise, str_eq, if◌then◌else◌,
}
use migrate_app_backend.Base.Text.{◌<>◌, show, join}
use migrate_app_backend.Base.Dict.{Dict, lookup}
use migrate_app_backend.Base.Raise.{◌>>=◌}
use migrate_app_backend.Base.Int.{ℤ, pos, negsuc}
use migrate_app_backend.Core.Constants.{DatabaseType, database_value}
use migrate_app_backend.Utils.Json.{Scalar, Object, null, text, number, texts}
use migrate_app_backend.Migration.Value.{Python}
use migrate_app_backend.Providers.{Provider}

-- what is left of a text after another
unfoldable pub after_prefix : String → String → Option String
after_prefix String.[] s = some s
after_prefix (String.◌∷◌ c p) String.[] = none
after_prefix (String.◌∷◌ c p) (String.◌∷◌ d s) =
    let rest = after_prefix p s in
    if str_eq (String.◌∷◌ c String.[]) (String.◌∷◌ d String.[]) then rest else none

or_rest : String → String → Option String → String
or_rest new other none = other
or_rest new other (some rest) = new <> rest

-- `s.replace(old, new, 1)`
unfoldable pub replace_first : String → String → String → String
unfolding after_prefix or_rest
replace_first old new String.[] = or_rest new String.[] (after_prefix old String.[])
replace_first old new (String.◌∷◌ c s) =
    let rest = String.◌∷◌ c (replace_first old new s) in
    or_rest new rest (after_prefix old (String.◌∷◌ c s))

-- `s.replace(old, "")` for a text that is not empty, with a round for each character
erase_all : ℕ → String → String → String
unfolding after_prefix
erase_all zero old s = s
erase_all (suc rounds) old String.[] = String.[]
erase_all (suc rounds) old (String.◌∷◌ c s) = elim (after_prefix old (String.◌∷◌ c s)) [
  | none ↦ String.◌∷◌ c (erase_all rounds old s)
  | some rest ↦ erase_all rounds old rest
]

text_length : String → ℕ
text_length String.[] = 0
text_length (String.◌∷◌ c s) = suc (text_length s)

unfoldable pub erase_text : String → String → String
unfolding erase_all text_length
erase_text old s = erase_all (text_length s) old s

-- a text that is there and is not empty
abbrev pub given : Option Scalar → Option String
given (some (text t)) = if str_eq t "" then none else some t
given _ = none

abbrev pub show_int : ℤ → String
show_int (pos n) = show n
show_int (negsuc n) = "-" <> show (suc n)

-- `str(x)` of a credential; a list's texts are taken to need no escapes
abbrev pub str_of : Scalar → String
str_of null = "None"
str_of (text t) = t
str_of (number n) = show_int n
str_of (texts []) = "[]"
str_of (texts (t ∷ ts)) = "['" <> join "', '" (t ∷ ts) <> "']"

abbrev pub get_or : Scalar → Option Scalar → Scalar
get_or d none = d
get_or d (some x) = x

abbrev pub key_of : String → Option Scalar → Result Scalar
key_of name none = raise (Exception.other_error ("'" <> name <> "'"))
key_of name (some x) = ok x

-- `credentials[name]`, with its `KeyError`
abbrev pub required : String → Object → Result Scalar
required name credentials = key_of name (lookup name credentials)

path_from : Object → Option String → Scalar
path_from credentials none = get_or (text ":memory:") (lookup "file_path" credentials)
path_from credentials (some url) = text (erase_text "sqlite://" (erase_text "sqlite:///" url))

-- `_resolve_path` of app/providers/sqlite_provider.py
unfoldable pub resolve_path : Object → Scalar
unfolding path_from
resolve_path credentials = path_from credentials (given (lookup "database_url" credentials))

dsn_from : Object → Option String → Result String
dsn_from credentials (some url) = ok (replace_first "postgres://" "postgresql://" url)
dsn_from credentials none = required "username" credentials >>= λ username.
    required "password" credentials >>= λ password. required "host" credentials >>= λ host.
    required "database" credentials >>= λ database. ok (
      "postgresql://"
      <> str_of username
      <> ":"
      <> str_of password
      <> "@"
      <> str_of host
      <> ":"
      <> str_of (get_or (number (pos 5432)) (lookup "port" credentials))
      <> "/"
      <> str_of database)

-- `_build_dsn` of app/providers/postgres_provider.py
unfoldable pub build_dsn : Object → Result String
unfolding dsn_from
build_dsn credentials = dsn_from credentials (given (lookup "database_url" credentials))

-- what `urllib.parse.urlparse` gives of a URL
pub record Url : Type 0 where
  pub hostname : Option String
  pub port : Option ℕ
  pub username : Option String
  pub password : Option String
  pub path : String

-- the arguments of `aiomysql.create_pool`
pub record MysqlParams : Type 0 where
  pub host : Scalar
  pub port : ℤ
  pub user : Scalar
  pub password : Scalar
  pub db : Scalar

abbrev pub text_or : String → Option String → String
text_or d none = d
text_or d (some t) = if str_eq t "" then d else t

abbrev pub port_or : ℕ → Option ℕ → ℕ
port_or d none = d
port_or d (some n) = if n == 0 then d else n

-- `path.lstrip("/")`
unfoldable pub lstrip_slash : String → String
lstrip_slash String.[] = String.[]
lstrip_slash (String.◌∷◌ c s) =
    let rest = lstrip_slash s in
    if str_eq (String.◌∷◌ c String.[]) "/" then rest else String.◌∷◌ c s

-- The libraries of the drivers: how a provider's calls act once it is made, `urlparse`, and `int` of
-- a text.
pub record Drivers (P : Python) (W : Type 0) : Type 0 where
  pub postgres : (dsn : String) → Provider P W
  pub mysql : MysqlParams → Provider P W
  pub sqlite : (path : Scalar) → Provider P W
  pub urlparse : String → Result Url
  pub int_of_text : String → Result ℤ

module _ {P : Python} {W : Type 0} (drivers : Drivers P W) where
  not_a_number : String → Exception
  not_a_number kind = Exception.type_error (
      "int() argument must be a string, a bytes-like object or a real number, not '" <> kind <> "'")

  -- `int(x)` of a credential
  unfoldable pub int_of : Scalar → Result ℤ
  unfolding not_a_number
  int_of null = raise (not_a_number "NoneType")
  int_of (text t) = drivers.int_of_text t
  int_of (number n) = ok n
  int_of (texts ts) = raise (not_a_number "list")

  params_from : Object → Option String → Result MysqlParams
  unfolding int_of lstrip_slash
  params_from creds (some url) = drivers.urlparse url >>= λ r. ok (record {
    host = text (text_or "localhost" r.hostname);
    port = pos (port_or 3306 r.port);
    user = text (text_or "" r.username);
    password = text (text_or "" r.password);
    db = text (lstrip_slash r.path);
  })
  params_from creds none = int_of (get_or (number (pos 3306)) (lookup "port" creds)) >>= λ port.
      ok (record {
        host = get_or (text "localhost") (lookup "host" creds);
        port = port;
        user = get_or (text "") (lookup "username" creds);
        password = get_or (text "") (lookup "password" creds);
        db = get_or (text "") (lookup "database" creds);
      })

  -- `_parse_credentials` of app/providers/mysql_provider.py
  unfoldable pub parse_credentials : Object → Result MysqlParams
  unfolding params_from
  parse_credentials creds = params_from creds (given (lookup "database_url" creds))

  -- `PROVIDER_REGISTRY`, and the call of the class that it has
  unfoldable pub make_provider : DatabaseType → Object → Result (Provider P W)
  unfolding resolve_path build_dsn parse_credentials
  make_provider DatabaseType.postgres credentials =
      build_dsn credentials >>= λ dsn. ok (drivers.postgres dsn)
  make_provider DatabaseType.mysql credentials =
      parse_credentials credentials >>= λ params. ok (drivers.mysql params)
  make_provider DatabaseType.sqlite credentials = ok (drivers.sqlite (resolve_path credentials))
  make_provider t credentials = raise (
      Exception.not_implemented (
        "Database type '"
        <> database_value t
        <> "' is not yet supported. Supported types: ['postgres', 'mysql', 'sqlite']"))

-- the members of `DatabaseType`
abbrev pub database_types : List DatabaseType
database_types =
    DatabaseType.postgres ∷ DatabaseType.mysql ∷ DatabaseType.sqlite ∷ DatabaseType.mssql
    ∷ DatabaseType.mongodb ∷ DatabaseType.oracle ∷ DatabaseType.mariadb ∷ []

type_among : String → List DatabaseType → Result DatabaseType
type_among value [] =
    raise (Exception.value_error ("'" <> value <> "' is not a valid DatabaseType"))
type_among value (t ∷ ts) = if str_eq value (database_value t) then ok t else type_among value ts

-- `DatabaseType(value)`
unfoldable pub database_type_of : String → Result DatabaseType
unfolding type_among
database_type_of value = type_among value database_types

-- `get_provider`
unfoldable pub get_provider :
    {P : Python} {W : Type 0} → Drivers P W → String → Object → Result (Provider P W)
unfolding make_provider database_type_of
get_provider drivers database_type credentials =
    database_type_of database_type >>= λ t. make_provider drivers t credentials
