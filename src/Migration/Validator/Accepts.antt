-- ===== src/Migration/Validator/Accepts.antt =====
-- Which pairs of schemas `validate_schema_compatibility` accepts.
use migrate_app_backend.Base.{
  String, ◌≡◌, refl, sym, ◌≢◌, ◌↔◌, Option, none, some, false, List, [], ◌∷◌, ◌++◌, All, In, All-In,
  All-of_In, arith, ok, inl, inr, Bool-cases, Option-cases,
}
use migrate_app_backend.Base.Raise.{◌>>=◌, >>=-eq-ok}
use migrate_app_backend.Base.Dict.{lookup}
use migrate_app_backend.Schemas.Migration.{ColumnSchema, TableSchema}
use migrate_app_backend.Schemas.Columns.{
  columns_by_name, contains-columns_by_name, has_name-In, In-has_name, HasUniqueNames,
  columns_by_name-eq-map, lookup-columns_by_name, In-lookup-columns_by_name,
}
use migrate_app_backend.Migration.Validator.{
  check_source_columns, check_dest_columns, validate_schema_compatibility, is_empty,
  validate_against,
}
use migrate_app_backend.Migration.Validator.Loops.{
  Compatible, Fits, check_source_columns-Fits, Fits-check_source_columns, Served,
  check_dest_columns-Served, Served-check_dest_columns,
}

is_empty-eq-false : (cols : List ColumnSchema) → cols ≢ [] → is_empty cols ≡ false
is_empty-eq-false [] h = absurd (h refl)
is_empty-eq-false (c ∷ cols) h = refl

pub validate-parts :
    (source : TableSchema) (destination : Option TableSchema) (ws : List String)
    → validate_schema_compatibility source destination ≡ ok ws
    → (source.columns ≢ []) × (validate_against source destination ≡ ok ws)
unfolding validate_schema_compatibility
validate-parts source destination ws h = elim (Bool-cases (is_empty source.columns)) [
  | inl e ↦ absurd (ground arith)
  | inr e ↦ (λ n. ground arith, ground arith)
]

no_source :
    (d : ColumnSchema) (cols : List ColumnSchema)
    → lookup d.name (columns_by_name cols) ≡ none
    → (s : ColumnSchema) → In s cols
    → s.name ≢ d.name
no_source d cols e s i n =
    ground (arith, has_name-In s cols i, contains-columns_by_name d.name cols)

lookup_no_source :
    (d : ColumnSchema) (cols : List ColumnSchema)
    → ((s : ColumnSchema) → In s cols → s.name ≢ d.name)
    → lookup d.name (columns_by_name cols) ≡ none
lookup_no_source d cols f = elim (Option-cases (lookup d.name (columns_by_name cols))) [
  | inl e ↦ e
  | inr (c, e) ↦
      let (s, i, n) =
        In-has_name d.name cols (ground (arith, contains-columns_by_name d.name cols)) in
      absurd (f s i n)
]

abbrev BothLoops : TableSchema → TableSchema → List String → List String → Type 0
BothLoops source destination ws1 ws2 =
    (check_source_columns source destination (columns_by_name destination.columns) source.columns
      ≡ ok ws1)
    × (check_dest_columns source destination (columns_by_name source.columns)
          (columns_by_name destination.columns)
        ≡ ok ws2)

validate-loops :
    (source destination : TableSchema) (ws : List String)
    → validate_against source (some destination) ≡ ok ws
    → (ws1 ws2 : List String) × BothLoops source destination ws1 ws2
validate-loops source destination ws h =
    let (ws1, e, h') =
      >>=-eq-ok
        (check_source_columns source destination (columns_by_name destination.columns)
          source.columns)
        (λ ws1.
          check_dest_columns source destination (columns_by_name source.columns)
            (columns_by_name destination.columns)
          >>= λ more. ok (ws1 ++ more))
        h in
    let (ws2, e', _) =
      >>=-eq-ok
        (check_dest_columns source destination (columns_by_name source.columns)
          (columns_by_name destination.columns))
        (λ more. ok (ws1 ++ more)) h' in
    (ws1, ws2, (e, e'))

loops-validate :
    (source destination : TableSchema) (ws1 ws2 : List String)
    → source.columns ≢ []
    → BothLoops source destination ws1 ws2
    → validate_schema_compatibility source (some destination) ≡ ok (ws1 ++ ws2)
unfolding validate_schema_compatibility
loops-validate source destination ws1 ws2 full h =
    rw (is_empty-eq-false source.columns full, h.0, h.1)

module _ (source destination : TableSchema) (unique : HasUniqueNames destination.columns) where
  dest_loop-Served :
      (ws : List String)
      → check_dest_columns source destination
          (columns_by_name source.columns)
          (columns_by_name destination.columns)
        ≡ ok ws
      → All (Served source destination (columns_by_name source.columns)) destination.columns
  dest_loop-Served ws h =
      check_dest_columns-Served source destination (columns_by_name source.columns)
        destination.columns ws (rw (columns_by_name-eq-map destination.columns unique) at h)

  Served-dest_loop :
      All (Served source destination (columns_by_name source.columns)) destination.columns
      → (ws : List String) × (check_dest_columns source destination
            (columns_by_name source.columns)
            (columns_by_name destination.columns)
          ≡ ok ws)
  Served-dest_loop f = rw (columns_by_name-eq-map destination.columns unique) (
      Served-check_dest_columns source destination (columns_by_name source.columns)
        destination.columns f)

  accepts-Compatible :
      (ws : List String)
      → validate_schema_compatibility source (some destination) ≡ ok ws
      → Compatible source destination
  accepts-Compatible ws h =
      let (full, against) = validate-parts source (some destination) ws h in
      let (ws1, ws2, (e1, e2)) = validate-loops source destination ws against in
      record {
        nonempty = full;
        families = λ s d i j n.
            All-In (Fits source destination (columns_by_name destination.columns)) s source.columns
              (check_source_columns-Fits source destination (columns_by_name destination.columns)
                source.columns ws1 e1)
              i d (rw n (lookup-columns_by_name d destination.columns unique j));
        extras = λ d j f.
            All-In (Served source destination (columns_by_name source.columns)) d
              destination.columns (dest_loop-Served ws2 e2) j (lookup_no_source d source.columns f);
      }

  Compatible-accepts :
      Compatible source destination
      → (ws : List String) × (validate_schema_compatibility source (some destination) ≡ ok ws)
  Compatible-accepts c =
      let (ws1, e1) =
        Fits-check_source_columns source destination (columns_by_name destination.columns)
          source.columns
          (All-of_In (Fits source destination (columns_by_name destination.columns)) source.columns
            λ s i d e.
              let (j, n) = In-lookup-columns_by_name s.name d destination.columns unique e in
              c.families s d i j (sym n)) in
      let (ws2, e2) = Served-dest_loop (
        All-of_In (Served source destination (columns_by_name source.columns)) destination.columns
          λ d j e. c.extras d j (no_source d source.columns e)) in
      (ws1 ++ ws2, loops-validate source destination ws1 ws2 c.nonempty (e1, e2))

  -- When the destination's column names are distinct, validation succeeds exactly for a compatible
  -- pair: the source has a column, columns of one name have types of one family (or one of them is
  -- of no known family), and every destination column that no source column has is nullable or has
  -- a default.
  pub accepts_iff :
      ((ws : List String) × (validate_schema_compatibility source (some destination) ≡ ok ws))
      ↔ Compatible source destination
  accepts_iff = (λ (ws, h). accepts-Compatible ws h, Compatible-accepts)
