-- ===== src/Migration/Validator/Raises.antt =====
-- app/migration/validator.py: the exceptions of `validate_schema_compatibility`.
use migrate_app_backend.Base.{
  String, ◌≡◌, refl, Option, none, some, Bool, true, false, List, [], ◌∷◌, arith, Exception, Result,
  ok, raise, out_of_fuel, Bool-cases, inl, inr,
}
use migrate_app_backend.Base.Raise.{◌>>=◌}
use migrate_app_backend.Base.Dict.{Dict}
use migrate_app_backend.Schemas.Migration.{ColumnSchema, TableSchema}
use migrate_app_backend.Schemas.Columns.{columns_by_name}
use migrate_app_backend.Migration.Validator.{
  no_columns, family_clash, no_default, is_empty, check_source_column, check_source_columns,
  check_dest_column, check_dest_columns, validate_schema_compatibility, validate_against,
}

-- A result, or a `SchemaCompatibilityError`.
abbrev pub is_checked {ℓ} : {A : Type ℓ} → Result A → Bool
is_checked (ok a) = true
is_checked (raise (Exception.schema_incompatible m)) = true
is_checked _ = false

bind-is_checked :
    {A B : Type 0} (m : Result A) (f : A → Result B)
    → is_checked m ≡ true
    → ((a : A) → is_checked (f a) ≡ true)
    → is_checked (m >>= f) ≡ true
bind-is_checked (ok a) f h k = k a
bind-is_checked (raise (Exception.schema_incompatible m)) f h k = refl
bind-is_checked (raise e) f h k = cc
bind-is_checked out_of_fuel f h k = cc

module _ (source destination : TableSchema) (cols : Dict ColumnSchema) where
  source_column-is_checked :
      (c : ColumnSchema) → is_checked (check_source_column source destination cols c) ≡ true
  unfolding check_source_column family_clash
  source_column-is_checked c = ground arith

  source_columns-is_checked :
      (cs : List ColumnSchema) → is_checked (check_source_columns source destination cols cs) ≡ true
  unfolding check_source_columns
  source_columns-is_checked [] = refl
  source_columns-is_checked (c ∷ cs) =
      bind-is_checked _ _ (source_column-is_checked c)
        λ ws. bind-is_checked _ _ (source_columns-is_checked cs) λ rest. refl

  dest_column-is_checked :
      (k : String) (c : ColumnSchema)
      → is_checked (check_dest_column source destination cols k c) ≡ true
  unfolding check_dest_column no_default
  dest_column-is_checked k c = ground arith

  dest_columns-is_checked :
      (cs : Dict ColumnSchema) → is_checked (check_dest_columns source destination cols cs) ≡ true
  unfolding check_dest_columns
  dest_columns-is_checked [] = refl
  dest_columns-is_checked ((k, c) ∷ cs) =
      bind-is_checked _ _ (dest_column-is_checked k c)
        λ ws. bind-is_checked _ _ (dest_columns-is_checked cs) λ rest. refl

against-is_checked :
    (source : TableSchema) (destination : Option TableSchema)
    → is_checked (validate_against source destination) ≡ true
against-is_checked source none = refl
against-is_checked source (some destination) =
    bind-is_checked _ _
      (source_columns-is_checked source destination (columns_by_name destination.columns)
        source.columns)
      λ ws.
        bind-is_checked _ _
          (dest_columns-is_checked source destination (columns_by_name source.columns)
            (columns_by_name destination.columns))
          λ more. refl

-- Validation raises nothing but `SchemaCompatibilityError`, and returns otherwise.
pub validate-is_checked :
    (source : TableSchema) (destination : Option TableSchema)
    → is_checked (validate_schema_compatibility source destination) ≡ true
unfolding validate_schema_compatibility no_columns
validate-is_checked source destination = elim (Bool-cases (is_empty source.columns)) [
  | inl e ↦ rw e
  | inr e ↦ rw e (against-is_checked source destination)
]
