-- ===== src/Services/Credentials.antt =====
-- `_creds_to_dict` of app/services/migration_service.py and of app/services/schema_service.py.
use migrate_app_backend.Base.{String, Option, none, some, [], ◌∷◌}
use migrate_app_backend.Base.Int.{ℤ}
use migrate_app_backend.Core.Constants.{ConnectionMethod, database_value}
use migrate_app_backend.Schemas.Connection.{ConnectionCredentials}
use migrate_app_backend.Utils.Json.{Scalar, Object, null, text, number, optional_text}

-- `ConnectionMethod.value`
abbrev pub method_value : ConnectionMethod → String
method_value ConnectionMethod.url = "url"
method_value ConnectionMethod.credentials = "credentials"

abbrev pub optional_number : Option ℤ → Scalar
optional_number none = null
optional_number (some n) = number n

-- `conn_schema.model_dump()`; a member of an enumeration is the text of its value
abbrev pub model_dump : ConnectionCredentials → Object
model_dump c =
    ("database_type", text (database_value c.database_type))
    ∷ ("connection_method", text (method_value c.connection_method))
    ∷ ("database_url", optional_text c.database_url)
    ∷ ("host", optional_text c.host)
    ∷ ("port", optional_number c.port)
    ∷ ("database", optional_text c.database)
    ∷ ("username", optional_text c.username)
    ∷ ("password", optional_text c.password)
    ∷ ("file_path", optional_text c.file_path)
    ∷ []

unfoldable pub without_null : Object → Object
without_null [] = []
without_null ((k, null) ∷ o) = without_null o
without_null ((k, v) ∷ o) = (k, v) ∷ without_null o

-- `_creds_to_dict`
unfoldable pub creds_to_dict : ConnectionCredentials → Object
unfolding without_null
creds_to_dict c = without_null (model_dump c)
