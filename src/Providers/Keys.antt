-- ===== src/Providers/Keys.antt =====
-- What the schemas that app/providers/sqlite_provider.py reads have in common.
use migrate_app_backend.Base.{
  String, Option, some, Bool, true, List, [], ◌∷◌, ◌≡◌, refl, sym, ap, ◌∙◌, arith, Result, ok, All,
  is_some,
}
use migrate_app_backend.Base.Text.{upper, before_paren}
use migrate_app_backend.Base.Dict.{Dict, lookup}
use migrate_app_backend.Base.Effect.{bind-eq-ok, ok-injective}
use migrate_app_backend.Schemas.Migration.{TableSchema}
use migrate_app_backend.Migration.Value.{Python}
use migrate_app_backend.Migration.Validator.{family, family_from}
use migrate_app_backend.Providers.Sql.{Driver, connected, key_names}
use migrate_app_backend.Providers.Sqlite.{
  ColumnInfo, affinity_map, column_of, read_columns, get_row_count, get_table_schema,
}

read_columns_keys :
    (rows : List ColumnInfo) → (read_columns rows).1 ≡ key_names (read_columns rows).0
unfolding read_columns key_names column_of
read_columns_keys [] = refl
read_columns_keys (row ∷ rows) = ground (arith, read_columns_keys rows)

-- A schema that the SQLite provider reads has the name of the table that was asked for, and its
-- primary keys are the names of exactly those of its columns that are marked as primary keys, in the
-- order of the columns.
pub get_table_schema_keys :
    {P : Python} {W : Type 0} (conn : Option (Driver P W ColumnInfo)) (table_name : String)
    (schema : TableSchema) (w w' : W)
    → get_table_schema conn table_name w ≡ (ok schema, w')
    → (schema.name ≡ table_name) × (schema.primary_keys ≡ key_names schema.columns)
unfolding get_table_schema
get_table_schema_keys {P} {W} conn table_name schema w w' h =
    let (c, w1, e1, h1) = bind-eq-ok (connected conn) _ w w' schema h in
    let (rows, w2, e2, h2) = bind-eq-ok (c.columns table_name) _ w1 w' schema h1 in
    let (n, w3, e3, h3) = bind-eq-ok (get_row_count conn table_name) _ w2 w' schema h2 in
    let same = ok-injective (ap (λ (p : Result TableSchema × W). p.0) h3) in
    (
      ap (λ (s : TableSchema). s.name) (sym same),
      ap (λ (s : TableSchema). s.primary_keys) (sym same)
          ∙ read_columns_keys rows
          ∙ ap (λ (s : TableSchema). key_names s.columns) same,
    )

All-lookup :
    (Q : String → Bool) (k t : String) (d : Dict String)
    → All (λ (p : String × String). Q p.1 ≡ true) d
    → lookup k d ≡ some t
    → Q t ≡ true
unfolding lookup
All-lookup Q k t [] a h = cc
All-lookup Q k t ((j, v) ∷ d) a h = ground (arith, All-lookup Q k t d)

known : All (λ (p : String × String). is_some (family p.1) ≡ true) affinity_map
unfolding family family_from upper before_paren
known = (
  refl,
  (
    refl,
    (
      refl,
      (
        refl,
        (
          refl,
          (
            refl,
            (
              refl,
              (
                refl,
                (
                  refl,
                  (
                    refl,
                    (
                      refl,
                      (
                        refl,
                        (
                          refl,
                          (
                            refl,
                            (refl, (refl, (refl, (refl, (refl, (refl, (refl, (refl, tt)))))))),
                          ),
                        ),
                      ),
                    ),
                  ),
                ),
              ),
            ),
          ),
        ),
      ),
    ),
  ),
)

-- Every type that the SQLite provider maps a declared type to is of a family that the validator
-- knows, so that the validator compares it with the destination's.
pub affinity_map_known :
    (declared type : String)
    → lookup declared affinity_map ≡ some type
    → is_some (family type) ≡ true
affinity_map_known declared type h =
    All-lookup (λ t. is_some (family t)) declared type affinity_map known h
