-- ===== src/Migration/Validator.antt =====
-- app/migration/validator.py
pub mod Loops
pub mod Accepts
pub mod Raises
use migrate_app_backend.Base.{
  ℕ, zero, suc, String, Option, none, some, Bool, true, false, not, ◌&&◌, ◌||◌, List, [], ◌∷◌, ◌++◌,
  Exception, Result, ok, raise, out_of_fuel, ltb, ◌==◌, str_eq, if◌then◌else◌, is_some,
}
use migrate_app_backend.Base.Text.{◌<>◌, upper, before_paren, show}
use migrate_app_backend.Base.Raise.{◌>>=◌}
use migrate_app_backend.Base.Dict.{Dict, lookup}
use migrate_app_backend.Schemas.Columns.{columns_by_name}
use migrate_app_backend.Schemas.Migration.{ColumnSchema, TableSchema}

abbrev pub contains_text : String → List String → Bool
contains_text t [] = false
contains_text t (x ∷ xs) = str_eq t x || contains_text t xs

-- `_TYPE_FAMILIES`
abbrev pub type_families : List (List String)
type_families =
    ("INTEGER" ∷ "SMALLINT" ∷ "BIGINT" ∷ "FLOAT" ∷ "DOUBLE" ∷ "DECIMAL" ∷ "NUMERIC" ∷ [])
    ∷ ("CHAR" ∷ "VARCHAR" ∷ "TEXT" ∷ "NCHAR" ∷ "NVARCHAR" ∷ "NTEXT" ∷ [])
    ∷ ("DATE" ∷ "TIME" ∷ "DATETIME" ∷ "TIMESTAMP" ∷ "TIMETZ" ∷ "TIMESTAMPTZ" ∷ [])
    ∷ ("BOOLEAN" ∷ "BOOL" ∷ "BIT" ∷ [])
    ∷ ("BLOB" ∷ "BYTEA" ∷ "BINARY" ∷ "VARBINARY" ∷ [])
    ∷ ("JSON" ∷ "JSONB" ∷ [])
    ∷ []

-- the loop of `_family`: `none` is the -1 that it returns
unfoldable pub family_from : ℕ → String → List (List String) → Option ℕ
family_from i t [] = none
family_from i t (fam ∷ fams) = if contains_text t fam then some i else family_from (suc i) t fams

-- `_family`
unfoldable pub family : String → Option ℕ
unfolding family_from
family dtype = family_from 0 (before_paren (upper dtype)) type_families

-- `src_fam != -1 and dst_fam != -1 and src_fam != dst_fam`
abbrev pub families_clash : Option ℕ → Option ℕ → Bool
families_clash (some i) (some j) = not (i == j)
families_clash _ _ = false

-- `dcol.max_length and col.max_length and col.max_length > dcol.max_length`
abbrev pub truncates : Option ℕ → Option ℕ → Bool
truncates (some d) (some s) = not (d == 0) && not (s == 0) && ltb d s
truncates _ _ = false

abbrev pub shown : Option ℕ → String
shown none = "None"
shown (some n) = show n

unfoldable pub missing_warning : TableSchema → ColumnSchema → String
missing_warning source col =
    "Column '" <> col.name <> "' in source table '" <> source.name <> "' "
    <> "does not exist in destination — it will be skipped."

unfoldable pub length_warning : ColumnSchema → ColumnSchema → String
length_warning col dcol =
    "Column '"
    <> col.name
    <> "': source max_length ("
    <> shown col.max_length
    <> ") "
    <> "exceeds destination ("
    <> shown dcol.max_length
    <> ") — data may be truncated."

unfoldable pub extra_warning : TableSchema → String → String
extra_warning destination dest_col_name =
    "Column '" <> dest_col_name <> "' in destination table '" <> destination.name <> "' "
    <> "has no matching source column — it will receive NULL / default values."

unfoldable pub no_columns : TableSchema → Exception
no_columns source =
    Exception.schema_incompatible ("Table '" <> source.name <> "' has no columns — cannot migrate.")

unfoldable pub family_clash : TableSchema → ColumnSchema → ColumnSchema → Exception
family_clash source col dcol = Exception.schema_incompatible (
    "Incompatible type families for column '" <> col.name <> "' in table '" <> source.name
    <> "': source=" <> col.data_type <> ", destination=" <> dcol.data_type <> ".")

unfoldable pub no_default : TableSchema → String → Exception
no_default destination dest_col_name = Exception.schema_incompatible (
    "Destination column '" <> dest_col_name <> "' in table '" <> destination.name
    <> "' is NOT NULL with no default but has no matching source column.")

module _ (source destination : TableSchema) where
  -- one round of the first loop: the warnings that it adds
  unfoldable pub check_source_column : Dict ColumnSchema → ColumnSchema → Result (List String)
  check_source_column dest_cols col = elim (lookup col.name dest_cols) [
    | none ↦ ok (missing_warning source col ∷ [])
    | some dcol ↦
        if families_clash (family col.data_type) (family dcol.data_type)
        then raise (family_clash source col dcol)
        else ok
            (if truncates dcol.max_length col.max_length then length_warning col dcol ∷ [] else [])
  ]

  -- the first loop
  unfoldable pub check_source_columns : Dict ColumnSchema → List ColumnSchema → Result (List String)
  check_source_columns dest_cols [] = ok []
  check_source_columns dest_cols (col ∷ cols) = check_source_column dest_cols col >>= λ ws.
      check_source_columns dest_cols cols >>= λ rest. ok (ws ++ rest)

  -- one round of the second loop, over the items of `dest_cols`
  unfoldable pub check_dest_column :
      Dict ColumnSchema → String → ColumnSchema → Result (List String)
  check_dest_column src_cols dest_col_name dcol =
      if is_some (lookup dest_col_name src_cols)
      then ok []
      else if not dcol.is_nullable && not (is_some dcol.default)
      then raise (no_default destination dest_col_name)
      else ok (extra_warning destination dest_col_name ∷ [])

  -- the second loop
  unfoldable pub check_dest_columns : Dict ColumnSchema → Dict ColumnSchema → Result (List String)
  check_dest_columns src_cols [] = ok []
  check_dest_columns src_cols ((dest_col_name, dcol) ∷ rest) =
      check_dest_column src_cols dest_col_name dcol >>= λ ws.
      check_dest_columns src_cols rest >>= λ more. ok (ws ++ more)

-- `validate_schema_compatibility` once the source has columns
abbrev pub validate_against : TableSchema → Option TableSchema → Result (List String)
validate_against source none = ok []
validate_against source (some destination) =
    let dest_cols = columns_by_name destination.columns in
    let src_cols = columns_by_name source.columns in
    check_source_columns source destination dest_cols source.columns >>= λ ws.
    check_dest_columns source destination src_cols dest_cols >>= λ more. ok (ws ++ more)

abbrev pub is_empty {ℓ} : {A : Type ℓ} → List A → Bool
is_empty [] = true
is_empty (x ∷ xs) = false

-- `validate_schema_compatibility`
unfoldable pub validate_schema_compatibility :
    TableSchema → Option TableSchema → Result (List String)
validate_schema_compatibility source destination =
    if is_empty source.columns
    then raise (no_columns source)
    else validate_against source destination
