-- ===== src/Migration/Mapper/Ends.antt =====
-- app/migration/mapper.py: a batch is transformed, or a coercion raises.
use migrate_app_backend.Base.{String, Bool, true, false, List, [], ◌∷◌, ok, out_of_fuel, ◌≢◌}
use migrate_app_backend.Base.Raise.{>>=-ne}
use migrate_app_backend.Base.Dict.{lookup, insert}
use migrate_app_backend.Schemas.Migration.{ColumnMapping}
use migrate_app_backend.Migration.Value.{Python, Value, Row, value_or_null}
use migrate_app_backend.Migration.Mapper.{
  coerce_integer, coerce_text, coerce_by, coerce_to, coerce, map_row, map_rows, apply_mappings,
}

-- the library calls on values come back
pub record IsResponding (P : Python) : Type 0 where
  pub int_of_float : (x : P.Float) → P.int_of_float x ≢ out_of_fuel
  pub dumps : (x : P.Json) → P.dumps x ≢ out_of_fuel

module _ (P : Python) (h : IsResponding P) where
  ok_ends : {A : Type 0} (a : A) → ok a ≢ out_of_fuel
  ok_ends a p = cc

  coerce_integer_ends : (v : Value P) → coerce_integer P v ≢ out_of_fuel
  unfolding coerce_integer
  coerce_integer_ends (Value.float x) = >>=-ne _ _ (h.int_of_float x) λ n. ok_ends _
  coerce_integer_ends Value.null = ok_ends _
  coerce_integer_ends (Value.bool b) = ok_ends _
  coerce_integer_ends (Value.int n) = ok_ends _
  coerce_integer_ends (Value.str s) = ok_ends _
  coerce_integer_ends (Value.json j) = ok_ends _
  coerce_integer_ends (Value.other o) = ok_ends _

  coerce_text_ends : (v : Value P) → coerce_text P v ≢ out_of_fuel
  unfolding coerce_text
  coerce_text_ends (Value.json x) = >>=-ne _ _ (h.dumps x) λ t. ok_ends _
  coerce_text_ends Value.null = ok_ends _
  coerce_text_ends (Value.bool b) = ok_ends _
  coerce_text_ends (Value.int n) = ok_ends _
  coerce_text_ends (Value.float x) = ok_ends _
  coerce_text_ends (Value.str s) = ok_ends _
  coerce_text_ends (Value.other o) = ok_ends _

  coerce_by_ends : (b i t : Bool) (v : Value P) → coerce_by P b i t v ≢ out_of_fuel
  unfolding coerce_by
  coerce_by_ends true i t v = ok_ends _
  coerce_by_ends false true t v = coerce_integer_ends v
  coerce_by_ends false false true v = coerce_text_ends v
  coerce_by_ends false false false v = ok_ends _

  coerce_ends : (v : Value P) (t : String) → coerce P v t ≢ out_of_fuel
  unfolding coerce coerce_to
  coerce_ends Value.null t = ok_ends _
  coerce_ends (Value.bool b) t = coerce_by_ends _ _ _ _
  coerce_ends (Value.int n) t = coerce_by_ends _ _ _ _
  coerce_ends (Value.float x) t = coerce_by_ends _ _ _ _
  coerce_ends (Value.str s) t = coerce_by_ends _ _ _ _
  coerce_ends (Value.json j) t = coerce_by_ends _ _ _ _
  coerce_ends (Value.other o) t = coerce_by_ends _ _ _ _

  map_row_ends :
      (row : Row P) (ms : List ColumnMapping) (new : Row P) → map_row P row ms new ≢ out_of_fuel
  unfolding map_row
  map_row_ends row [] new = ok_ends _
  map_row_ends row (m ∷ ms) new =
      >>=-ne (coerce P (value_or_null (lookup m.source_col row)) m.dest_type) _ (coerce_ends _ _)
        λ v. map_row_ends row ms (insert m.dest_col v new)

  map_rows_ends : (ms : List ColumnMapping) (rows : List (Row P)) → map_rows P ms rows ≢ out_of_fuel
  unfolding map_rows
  map_rows_ends ms [] = ok_ends _
  map_rows_ends ms (row ∷ rows) =
      >>=-ne (map_row P row ms []) _ (map_row_ends row ms [])
        λ new. >>=-ne (map_rows P ms rows) _ (map_rows_ends ms rows) λ rest. ok_ends _

  -- A batch is transformed, or a coercion raises, if the library calls on values come back.
  pub apply_mappings_ends :
      (rows : List (Row P)) (ms : List ColumnMapping) → apply_mappings P rows ms ≢ out_of_fuel
  unfolding apply_mappings
  apply_mappings_ends rows ms = map_rows_ends _ rows
