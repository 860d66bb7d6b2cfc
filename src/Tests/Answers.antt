-- ===== src/Tests/Answers.antt =====
-- app/utils, app/providers/__init__.py, the reading requests of app/services, and the answers of
-- app/api/routes, on concrete inputs.
use migrate_app_backend.Base.{
  ℕ, ◌*◌, ◌/◌, String, none, some, true, false, List, [], ◌∷◌, map, ok, Exception, ◌≡◌, refl, arith,
  str_eq, if◌then◌else◌,
}
use migrate_app_backend.Base.Int.{pos}
use migrate_app_backend.Base.Dict.{lookup}
use migrate_app_backend.Base.Effect.{pure, throw}
use migrate_app_backend.Base.Calls.{Terminates}
use migrate_app_backend.Core.Constants.{LogLevel}
use migrate_app_backend.Models.{MigrationLog, Database}
use migrate_app_backend.Providers.{Provider}
use migrate_app_backend.Services.MigrationService.Read.{
  MigrationLogEntry, MigrationStatusResponse, get_status,
}
use migrate_app_backend.Services.MigrationService.Read.Status.{Tells, get_status_answers}
use migrate_app_backend.Services.SchemaService.{TableInfo, counted}
use migrate_app_backend.Services.SchemaService.Lists.{counted_all}
use migrate_app_backend.Core.Constants.{MigrationStatus}
use migrate_app_backend.Api.Routes.{start_route, cancel_route}
use migrate_app_backend.Api.Routes.ByStatus.{start_answer, cancel_answer, requests_by_status}
use migrate_app_backend.Utils.Encryption.{encrypt_credentials, get_fernet}
use migrate_app_backend.Utils.Helpers.{Floats, chunk_list}
use migrate_app_backend.Utils.Helpers.Laws.{IsRounding}
use migrate_app_backend.Tests.Fixtures.{
  python, World, empty_world, memory, pending_migration, database,
}
use migrate_app_backend.Tests.Application.{crypto, file_creds}

token_test : encrypt_credentials crypto "key" 5 (file_creds "a.db") ≡ ok "a.db"
unfolding encrypt_credentials get_fernet lookup
token_test = refl

-- floats that are whole numbers
abbrev whole : Floats ℕ
whole = record {
  zero_float = 0;
  div_int = λ p t. p / t;
  div = λ p x. p / x;
  mul = λ x n. x * n;
  sub = λ x y. x;
  is_positive = λ x. true;
  is_nonpositive = λ x. false;
  round = λ x. pos x;
  ceil = λ x. pos x;
}

whole-IsRounding : IsRounding whole
whole-IsRounding = record {
  NonNegative = λ x. Unit;
  of_div = λ p t h. tt;
  of_mul = λ x n h. tt;
  of_round = λ x h. (x, refl);
}

abbrev letters : List String
letters = "a" ∷ "b" ∷ "c" ∷ []

abbrev pieces : List (List String)
pieces = ("a" ∷ "b" ∷ []) ∷ ("c" ∷ []) ∷ []

pieces_test : chunk_list letters 2 ≡ ok pieces
unfolding chunk_list
pieces_test = refl

row_test : lookup "m1" database.migrations ≡ some pending_migration
unfolding lookup
row_test = refl

get_status_answers_example :
    (r : MigrationStatusResponse) × (get_status whole (λ t s. t) "invalid" "m1" 60 database
      ≡ (ok r, database))
    × Tells pending_migration r
get_status_answers_example =
    get_status_answers whole (λ t s. t) "invalid" whole-IsRounding "m1" 60 pending_migration
      database row_test

abbrev info : String → ℕ → String → MigrationLog
info migration_id t text = record {
  id = text;
  migration_id = migration_id;
  level = "INFO";
  message = text;
  table_name = none;
  created_at = t;
}

abbrev with_logs : Database
with_logs = record database {
  logs = info "m1" 1 "one" ∷ info "m2" 2 "other" ∷ info "m1" 3 "two" ∷ info "m1" 4 "three" ∷ [];
}

abbrev entry : ℕ → String → MigrationLogEntry
entry t text = record {
  id = text;
  timestamp = t;
  level = LogLevel.info;
  message = text;
  table_name = none;
}

missing_test : lookup "m9" database.migrations ≡ none
unfolding lookup
missing_test = refl

requests_by_status_example :
    (start_route "m1" (ok "t1") (ok tt) 60 database
      ≡ start_answer "m1" 60 pending_migration database (ok "t1") (ok tt) MigrationStatus.pending)
    × (cancel_route "m1" (ok tt) (ok tt) 60 database
        ≡ cancel_answer "m1" 60 pending_migration database (ok tt) (ok tt) MigrationStatus.pending)
requests_by_status_example =
    requests_by_status "m1" 60 pending_migration database (ok "t1") (ok tt) (ok tt) row_test

-- a database whose table `lost` cannot be counted
abbrev part_lost : Provider python World
part_lost = record memory {
  get_row_count = λ t. if str_eq t "lost" then throw (Exception.other_error "lost") else pure 2;
}

counts_come_back : (name : String) → Terminates (part_lost.get_row_count name)
counts_come_back name = record { at = λ w p. ground arith }

counted_all_example :
    (tables : List TableInfo) × ((counted part_lost ("users" ∷ "lost" ∷ []) empty_world).0
      ≡ ok tables)
    × (map (λ t. t.name) tables ≡ "users" ∷ "lost" ∷ [])
counted_all_example = counted_all part_lost counts_come_back ("users" ∷ "lost" ∷ []) empty_world
