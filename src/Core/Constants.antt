-- ===== src/Core/Constants.antt =====
-- app/core/constants.py: the enumerations and the type affinity table.
use migrate_app_backend.Base.{String, [], ◌∷◌}
use migrate_app_backend.Base.Dict.{Dict}

-- `DatabaseType`
pub data DatabaseType : Type 0 where
  postgres mysql sqlite mssql mongodb oracle mariadb : DatabaseType

-- `ConnectionMethod`
pub data ConnectionMethod : Type 0 where
  url credentials : ConnectionMethod

-- `MigrationStatus`
pub data MigrationStatus : Type 0 where
  pending planning running paused completed failed cancelled : MigrationStatus

-- `MigrationStatus.value`
unfoldable pub status_value : MigrationStatus → String
status_value MigrationStatus.pending = "pending"
status_value MigrationStatus.planning = "planning"
status_value MigrationStatus.running = "running"
status_value MigrationStatus.paused = "paused"
status_value MigrationStatus.completed = "completed"
status_value MigrationStatus.failed = "failed"
status_value MigrationStatus.cancelled = "cancelled"

-- `DatabaseType.value`
unfoldable pub database_value : DatabaseType → String
database_value DatabaseType.postgres = "postgres"
database_value DatabaseType.mysql = "mysql"
database_value DatabaseType.sqlite = "sqlite"
database_value DatabaseType.mssql = "mssql"
database_value DatabaseType.mongodb = "mongodb"
database_value DatabaseType.oracle = "oracle"
database_value DatabaseType.mariadb = "mariadb"

-- `LogLevel`
pub data LogLevel : Type 0 where
  debug info warning error critical : LogLevel

-- `LogLevel.value`
unfoldable pub level_value : LogLevel → String
level_value LogLevel.debug = "DEBUG"
level_value LogLevel.info = "INFO"
level_value LogLevel.warning = "WARNING"
level_value LogLevel.error = "ERROR"
level_value LogLevel.critical = "CRITICAL"

-- `TYPE_AFFINITY`
abbrev pub type_affinity : Dict String
type_affinity =
    ("int", "INTEGER")
    ∷ ("tinyint", "SMALLINT")
    ∷ ("smallint", "SMALLINT")
    ∷ ("mediumint", "INTEGER")
    ∷ ("bigint", "BIGINT")
    ∷ ("serial", "INTEGER")
    ∷ ("bigserial", "BIGINT")
    ∷ ("float", "FLOAT")
    ∷ ("double", "DOUBLE")
    ∷ ("real", "FLOAT")
    ∷ ("decimal", "DECIMAL")
    ∷ ("numeric", "DECIMAL")
    ∷ ("money", "DECIMAL")
    ∷ ("char", "CHAR")
    ∷ ("varchar", "VARCHAR")
    ∷ ("text", "TEXT")
    ∷ ("tinytext", "TEXT")
    ∷ ("mediumtext", "TEXT")
    ∷ ("longtext", "TEXT")
    ∷ ("nchar", "CHAR")
    ∷ ("nvarchar", "VARCHAR")
    ∷ ("ntext", "TEXT")
    ∷ ("blob", "BLOB")
    ∷ ("tinyblob", "BLOB")
    ∷ ("mediumblob", "BLOB")
    ∷ ("longblob", "BLOB")
    ∷ ("bytea", "BLOB")
    ∷ ("binary", "BLOB")
    ∷ ("varbinary", "BLOB")
    ∷ ("date", "DATE")
    ∷ ("time", "TIME")
    ∷ ("datetime", "DATETIME")
    ∷ ("timestamp", "TIMESTAMP")
    ∷ ("year", "SMALLINT")
    ∷ ("interval", "VARCHAR")
    ∷ ("bool", "BOOLEAN")
    ∷ ("boolean", "BOOLEAN")
    ∷ ("bit", "BOOLEAN")
    ∷ ("json", "JSON")
    ∷ ("jsonb", "JSON")
    ∷ ("uuid", "VARCHAR")
    ∷ ("enum", "VARCHAR")
    ∷ ("set", "VARCHAR")
    ∷ []
