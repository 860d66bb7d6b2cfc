-- ===== src/Migration/Mapper.antt =====
-- app/migration/mapper.py
pub mod Coerced
pub mod Rows
pub mod Build
pub mod Converts
pub mod Ends
use migrate_app_backend.Base.{
  String, Option, none, some, Bool, true, false, ◌||◌, List, [], ◌∷◌, map, Result, ok, raise,
  str_eq, if◌then◌else◌, is_some,
}
use migrate_app_backend.Base.Int.{ℤ, truth}
use migrate_app_backend.Base.Text.{upper, lower, before_paren, strip}
use migrate_app_backend.Base.Dict.{Dict, lookup, insert}
use migrate_app_backend.Base.Raise.{◌>>=◌}
use migrate_app_backend.Core.Constants.{type_affinity}
use migrate_app_backend.Schemas.Migration.{ColumnSchema, TableSchema, ColumnMapping}
use migrate_app_backend.Schemas.Columns.{columns_by_name}
use migrate_app_backend.Migration.Value.{
  Python, Value, Row, value_or_null, null, bool, int, float, str, json, other,
}

abbrev text_or : String → Option String → String
text_or d none = d
text_or d (some t) = t

-- `_universal_type`
unfoldable pub universal_type : String → String
universal_type dtype =
    text_or (upper dtype) (lookup (strip (before_paren (lower dtype))) type_affinity)

-- `dest_col.data_type if dest_col else col.data_type`
abbrev pub type_of : ColumnSchema → Option ColumnSchema → String
type_of col none = col.data_type
type_of col (some d) = d.data_type

abbrev pub dest_columns : Option TableSchema → Dict ColumnSchema
dest_columns none = []
dest_columns (some destination) = columns_by_name destination.columns

-- one round of the loop of `build_column_mappings`
unfoldable pub column_mapping : Option TableSchema → ColumnSchema → ColumnMapping
column_mapping destination col =
    let dest_col = lookup col.name (dest_columns destination) in
    record {
      source_col = col.name;
      dest_col = col.name;
      source_type = col.data_type;
      dest_type = type_of col dest_col;
      include = if is_some destination then is_some dest_col else true;
    }

-- `build_column_mappings`
unfoldable pub build_column_mappings : TableSchema → Option TableSchema → List ColumnMapping
unfolding column_mapping
build_column_mappings source destination = map (column_mapping destination) source.columns

-- `[m for m in mappings if m["include"]]`
unfoldable pub active_mappings : List ColumnMapping → List ColumnMapping
active_mappings [] = []
active_mappings (m ∷ ms) = let rest = active_mappings ms in if m.include then m ∷ rest else rest

-- `value.lower() in ("1", "true", "yes", "t")`
is_true_text : String → Bool
is_true_text s =
    let t = lower s in str_eq t "1" || str_eq t "true" || str_eq t "yes" || str_eq t "t"

is_integer_type : String → Bool
is_integer_type u = str_eq u "INTEGER" || str_eq u "SMALLINT" || str_eq u "BIGINT"

is_text_type : String → Bool
is_text_type u = str_eq u "TEXT" || str_eq u "VARCHAR" || str_eq u "CHAR"

module _ (P : Python) where
  -- Python's `bool` is a subclass of `int`, so the first test takes both.
  unfoldable pub coerce_boolean : Value P → Value P
  unfolding is_true_text
  coerce_boolean (bool b) = bool b
  coerce_boolean (int n) = bool (truth n)
  coerce_boolean (str s) = bool (is_true_text s)
  coerce_boolean v = v

  unfoldable pub coerce_integer : Value P → Result (Value P)
  coerce_integer (float x) = P.int_of_float x >>= λ n. ok (int n)
  coerce_integer v = ok v

  unfoldable pub coerce_text : Value P → Result (Value P)
  coerce_text (json x) = P.dumps x >>= λ t. ok (str t)
  coerce_text v = ok v

  -- the branches of `_coerce`: whether the type is boolean, an integer's, a text's
  unfoldable pub coerce_by : Bool → Bool → Bool → Value P → Result (Value P)
  coerce_by true integer text v = ok (coerce_boolean v)
  coerce_by false true text v = coerce_integer v
  coerce_by false false true v = coerce_text v
  coerce_by false false false v = ok v

  -- `_coerce` of a value that is not `None`, by the bare type name
  unfoldable pub coerce_to : String → Value P → Result (Value P)
  unfolding is_integer_type is_text_type coerce_boolean coerce_integer coerce_text coerce_by
  coerce_to u v = coerce_by (str_eq u "BOOLEAN") (is_integer_type u) (is_text_type u) v

  -- `_coerce`
  unfoldable pub coerce : Value P → String → Result (Value P)
  coerce null dest_type = ok null
  coerce v dest_type = coerce_to (before_paren (upper dest_type)) v

  -- the inner loop of `apply_mappings`, from the row that is built so far
  unfoldable pub map_row : Row P → List ColumnMapping → Row P → Result (Row P)
  map_row row [] new_row = ok new_row
  map_row row (m ∷ active) new_row =
      coerce (value_or_null (lookup m.source_col row)) m.dest_type >>= λ v.
      map_row row active (insert m.dest_col v new_row)

  unfoldable pub map_rows : List ColumnMapping → List (Row P) → Result (List (Row P))
  map_rows active [] = ok []
  map_rows active (row ∷ rows) =
      map_row row active [] >>= λ new_row. map_rows active rows >>= λ rest. ok (new_row ∷ rest)

  -- `apply_mappings`
  unfoldable pub apply_mappings : List (Row P) → List ColumnMapping → Result (List (Row P))
  unfolding map_rows active_mappings
  apply_mappings rows mappings = map_rows (active_mappings mappings) rows
