-- ===== src/Providers/Registry/Kinds.antt =====
-- app/providers/__init__.py: the names of database types, and the credentials that a provider takes.
use migrate_app_backend.Base.{String, List, [], ◌∷◌, ok, ◌≡◌, ◌↔◌, refl, arith, eq_iff}
use migrate_app_backend.Core.Constants.{DatabaseType, database_value}
use migrate_app_backend.Providers.Registry.{database_types, type_among, database_type_of}

type_among-value :
    (s : String) (t : DatabaseType) (ts : List DatabaseType)
    → type_among s ts ≡ ok t
    → s ≡ database_value t
unfolding type_among
type_among-value s t [] h = cc
type_among-value s t (x ∷ ts) h =
    ground (arith, eq_iff s (database_value x), type_among-value s t ts)

pub database_type_of-value : (t : DatabaseType) → database_type_of (database_value t) ≡ ok t
unfolding database_type_of type_among database_value
database_type_of-value DatabaseType.postgres = refl
database_type_of-value DatabaseType.mysql = refl
database_type_of-value DatabaseType.sqlite = refl
database_type_of-value DatabaseType.mssql = refl
database_type_of-value DatabaseType.mongodb = refl
database_type_of-value DatabaseType.oracle = refl
database_type_of-value DatabaseType.mariadb = refl

-- `DatabaseType(s)` is a member exactly if `s` is that member's value, so that no two members share a
-- value and every other text is refused.
pub database_type_of_iff :
    (s : String) (t : DatabaseType) → (database_type_of s ≡ ok t) ↔ (s ≡ database_value t)
unfolding database_type_of
database_type_of_iff s t =
    (type_among-value s t database_types, λ e. rw e (database_type_of-value t))
