-- ===== src/Tests/Connection.antt =====
-- app/schemas/connection.py on the requests of tests/test_connection.py and others.
use migrate_app_backend.Base.{◌&&◌, none, some, ◌≡◌, refl, is_ok, raise, Exception}
use migrate_app_backend.Base.Int.{pos}
use migrate_app_backend.Base.Text.{join}
use migrate_app_backend.Core.Constants.{DatabaseType, ConnectionMethod}
use migrate_app_backend.Schemas.Connection.{
  ConnectionCredentials, is_usable, missing_fields, no_missing, validate_login, validate_method,
  validate_fields_for_method, make_credentials,
}
use migrate_app_backend.Schemas.Connection.Fields.{in_range, make_credentials-is_usable}

-- a host and a user without a database and a password
abbrev login : ConnectionCredentials
login = record {
  database_type = DatabaseType.postgres;
  connection_method = ConnectionMethod.credentials;
  database_url = none;
  host = some "localhost";
  port = some (pos 5432);
  database = none;
  username = some "user";
  password = some "";
  file_path = none;
}

login_test :
    validate_fields_for_method login
    ≡ raise (Exception.value_error "Missing required credential fields: database, password")
unfolding validate_fields_for_method validate_method validate_login no_missing missing_fields join
login_test = refl

make_credentials-is_usable_example :
    is_ok (make_credentials login)
    ≡ (in_range login.port && is_usable login ConnectionMethod.credentials DatabaseType.postgres)
make_credentials-is_usable_example = make_credentials-is_usable login
