-- ===== src/Schemas/Connection/Fields.antt =====
-- app/schemas/connection.py: which credentials are valid.
use migrate_app_backend.Base.{
  ℕ, Option, none, some, ltb, leb, ok, raise, Exception, ap, ◌∙◌, Bool, true, false, ◌&&◌, [], ◌∷◌,
  ◌++◌, is_ok, ◌≡◌, refl, arith, if◌then◌else◌,
}
use migrate_app_backend.Base.Int.{ℤ, pos, negsuc}
use migrate_app_backend.Base.Raise.{◌>>=◌}
use migrate_app_backend.Core.Constants.{DatabaseType, ConnectionMethod}
use migrate_app_backend.Schemas.Connection.{
  ConnectionCredentials, is_given, is_usable, missing_fields, no_missing, validate_login,
  validate_method, validate_fields_for_method, validate_port, make_credentials,
}

missing_is_ok :
    (c : ConnectionCredentials)
    → is_ok (no_missing c (missing_fields c))
      ≡ (is_given c.host && is_given c.database && is_given c.username && is_given c.password)
unfolding no_missing missing_fields
missing_is_ok c =
    by_each (is_given c.host) (is_given c.database) (is_given c.username) (is_given c.password)
  where
    by_each :
        (h d u p : Bool)
        → is_ok (
            no_missing c (
              (if h then [] else "host" ∷ [])
              ++ (if d then [] else "database" ∷ [])
              ++ (if u then [] else "username" ∷ [])
              ++ (if p then [] else "password" ∷ [])))
          ≡ (h && d && u && p)
    by_each true true true true = refl
    by_each true true true false = refl
    by_each true true false p = refl
    by_each true false u p = refl
    by_each false d u p = refl

login_is_ok :
    (c : ConnectionCredentials) (t : DatabaseType)
    → is_ok (validate_login c t) ≡ is_usable c ConnectionMethod.credentials t
unfolding validate_login
login_is_ok c DatabaseType.sqlite = ground arith
login_is_ok c _ = missing_is_ok c

method_is_ok :
    (c : ConnectionCredentials) (m : ConnectionMethod)
    → is_ok (validate_method c m) ≡ is_usable c m c.database_type
unfolding validate_method
method_is_ok c ConnectionMethod.url = ground arith
method_is_ok c ConnectionMethod.credentials = login_is_ok c c.database_type

pub validate_fields_for_method-is_usable :
    (c : ConnectionCredentials)
    → is_ok (validate_fields_for_method c) ≡ is_usable c c.connection_method c.database_type
unfolding validate_fields_for_method
validate_fields_for_method-is_usable c = method_is_ok c c.connection_method

-- no port, or one from 1 to 65535
abbrev pub in_range : Option ℤ → Bool
in_range none = true
in_range (some (negsuc n)) = false
in_range (some (pos n)) = ltb 0 n && ltb n 65536

-- Credentials are valid exactly if their port, if they have one, is from 1 to 65535, and they have
-- what their method of connection needs: a URL, or for SQLite the path of a file, or else a host, a
-- database, a user name and a password, none of them empty. The values of the fields are of the
-- types that they are declared with.
pub make_credentials-is_usable :
    (c : ConnectionCredentials)
    → is_ok (make_credentials c)
      ≡ (in_range c.port && is_usable c c.connection_method c.database_type)
unfolding make_credentials validate_port
make_credentials-is_usable c = by_port c.port
  where
    checked :
        (n : ℕ) (b : Bool)
        → b ≡ (leb 1 n && leb n 65535)
        → is_ok (
            (if b
              then ok (some (pos n))
              else raise (Exception.value_error "port must be between 1 and 65535"))
            >>= λ port. validate_fields_for_method (record c { port = port }))
          ≡ (b && is_usable c c.connection_method c.database_type)
    checked n true e = validate_fields_for_method-is_usable (record c { port = some (pos n) })
    checked n false e = refl

    by_port :
        (o : Option ℤ)
        → is_ok (validate_port o >>= λ port. validate_fields_for_method (record c { port = port }))
          ≡ (in_range o && is_usable c c.connection_method c.database_type)
    by_port none = validate_fields_for_method-is_usable (record c { port = none })
    by_port (some (negsuc n)) = refl
    by_port (some (pos n)) =
        let same : (leb 1 n && leb n 65535) ≡ (ltb 0 n && ltb n 65536) = ground arith in
        checked n (leb 1 n && leb n 65535) refl
        ∙ ap (λ b. b && is_usable c c.connection_method c.database_type) same
