-- ===== src/Migration/Mapper/Converts.antt =====
-- app/migration/mapper.py: a batch is transformed where its floats and documents can be converted.
use migrate_app_backend.Base.{
  String, Bool, true, false, List, [], ◌∷◌, Result, ok, raise, out_of_fuel, is_ok, ◌≡◌, refl,
}
use migrate_app_backend.Base.Raise.{◌>>=◌}
use migrate_app_backend.Base.Dict.{lookup, insert}
use migrate_app_backend.Schemas.Migration.{ColumnMapping}
use migrate_app_backend.Migration.Value.{Python, Value, Row, value_or_null}
use migrate_app_backend.Migration.Mapper.{
  active_mappings, coerce_integer, coerce_text, coerce_by, coerce_to, coerce, map_row, map_rows,
  apply_mappings,
}

-- `int` takes every float, and `json.dumps` every list and dictionary
pub record IsConverting (P : Python) : Type 0 where
  pub int_of_float : (x : P.Float) → is_ok (P.int_of_float x) ≡ true
  pub dumps : (x : P.Json) → is_ok (P.dumps x) ≡ true

then_ok :
    {A B : Type 0} (r : Result A) (f : A → Result B)
    → is_ok r ≡ true
    → ((a : A) → is_ok (f a) ≡ true)
    → is_ok (r >>= f) ≡ true
then_ok (ok a) f h k = k a
then_ok (raise e) f h k = cc
then_ok out_of_fuel f h k = cc

module _ (P : Python) (h : IsConverting P) where
  coerce_integer_ok : (v : Value P) → is_ok (coerce_integer P v) ≡ true
  unfolding coerce_integer
  coerce_integer_ok (Value.float x) = then_ok _ _ (h.int_of_float x) λ n. refl
  coerce_integer_ok Value.null = refl
  coerce_integer_ok (Value.bool b) = refl
  coerce_integer_ok (Value.int n) = refl
  coerce_integer_ok (Value.str s) = refl
  coerce_integer_ok (Value.json j) = refl
  coerce_integer_ok (Value.other o) = refl

  coerce_text_ok : (v : Value P) → is_ok (coerce_text P v) ≡ true
  unfolding coerce_text
  coerce_text_ok (Value.json x) = then_ok _ _ (h.dumps x) λ t. refl
  coerce_text_ok Value.null = refl
  coerce_text_ok (Value.bool b) = refl
  coerce_text_ok (Value.int n) = refl
  coerce_text_ok (Value.float x) = refl
  coerce_text_ok (Value.str s) = refl
  coerce_text_ok (Value.other o) = refl

  coerce_by_ok : (b i t : Bool) (v : Value P) → is_ok (coerce_by P b i t v) ≡ true
  unfolding coerce_by
  coerce_by_ok true i t v = refl
  coerce_by_ok false true t v = coerce_integer_ok v
  coerce_by_ok false false true v = coerce_text_ok v
  coerce_by_ok false false false v = refl

  coerce_ok : (v : Value P) (t : String) → is_ok (coerce P v t) ≡ true
  unfolding coerce coerce_to
  coerce_ok Value.null t = refl
  coerce_ok (Value.bool b) t = coerce_by_ok _ _ _ _
  coerce_ok (Value.int n) t = coerce_by_ok _ _ _ _
  coerce_ok (Value.float x) t = coerce_by_ok _ _ _ _
  coerce_ok (Value.str s) t = coerce_by_ok _ _ _ _
  coerce_ok (Value.json j) t = coerce_by_ok _ _ _ _
  coerce_ok (Value.other o) t = coerce_by_ok _ _ _ _

  map_row_ok :
      (row : Row P) (ms : List ColumnMapping) (new : Row P) → is_ok (map_row P row ms new) ≡ true
  unfolding map_row
  map_row_ok row [] new = refl
  map_row_ok row (m ∷ ms) new =
      then_ok _ _ (coerce_ok (value_or_null (lookup m.source_col row)) m.dest_type)
        λ v. map_row_ok row ms (insert m.dest_col v new)

  map_rows_ok : (ms : List ColumnMapping) (rows : List (Row P)) → is_ok (map_rows P ms rows) ≡ true
  unfolding map_rows
  map_rows_ok ms [] = refl
  map_rows_ok ms (row ∷ rows) =
      then_ok _ _ (map_row_ok row ms []) λ new. then_ok _ _ (map_rows_ok ms rows) λ rest. refl

  pub apply_mappings_ok :
      (rows : List (Row P)) (ms : List ColumnMapping) → is_ok (apply_mappings P rows ms) ≡ true
  unfolding apply_mappings
  apply_mappings_ok rows ms = map_rows_ok (active_mappings ms) rows
