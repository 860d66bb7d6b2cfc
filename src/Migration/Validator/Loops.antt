-- ===== src/Migration/Validator/Loops.antt =====
-- What the two loops of `validate_schema_compatibility` accept.
use migrate_app_backend.Base.{
  ℕ, String, ◌≡◌, refl, ◌≢◌, Option, none, some, true, false, List, [], ◌∷◌, ◌++◌, All, In, map,
  arith, ok, ok_of_is_ok, ◌⊎◌, inl, inr, Option-cases,
}
use migrate_app_backend.Base.Raise.{>>=-eq-ok}
use migrate_app_backend.Base.Dict.{Dict, lookup}
use migrate_app_backend.Schemas.Migration.{ColumnSchema, TableSchema}
use migrate_app_backend.Schemas.Columns.{entry}
use migrate_app_backend.Migration.Validator.{
  family, families_clash, check_source_column, check_source_columns, check_dest_column,
  check_dest_columns,
}

-- Two types are of one family, or one of them is of no known family.
abbrev pub SameFamily : String → String → Type 0
SameFamily a b = (i j : ℕ) → family a ≡ some i → family b ≡ some j → i ≡ j

-- A destination column takes rows that say nothing of it.
abbrev pub IsOptional : ColumnSchema → Type 0
IsOptional d = (d.is_nullable ≡ true) ⊎ (d.default ≢ none)

-- What a migration into an existing table needs.
pub record Compatible (source destination : TableSchema) : Type 0 where
  pub nonempty : source.columns ≢ []
  pub families :
      (s d : ColumnSchema)
      → In s source.columns
      → In d destination.columns
      → s.name ≡ d.name
      → SameFamily s.data_type d.data_type
  pub extras :
      (d : ColumnSchema)
      → In d destination.columns
      → ((s : ColumnSchema) → In s source.columns → s.name ≢ d.name)
      → IsOptional d

clash→ne :
    (a b : Option ℕ) → families_clash a b ≡ false → (i j : ℕ) → a ≡ some i → b ≡ some j → i ≡ j
clash→ne a b h i j p q = ground arith

ne→clash :
    (a b : Option ℕ) → ((i j : ℕ) → a ≡ some i → b ≡ some j → i ≡ j) → families_clash a b ≡ false
ne→clash none b f = refl
ne→clash (some i) none f = refl
ne→clash (some i) (some j) f = ground (arith, f i j refl refl)

module _ (source destination : TableSchema) (dest_cols : Dict ColumnSchema) where
  abbrev pub Fits : ColumnSchema → Type 0
  Fits col =
      (d : ColumnSchema) → lookup col.name dest_cols ≡ some d → SameFamily col.data_type d.data_type

  check_source_column-Fits :
      (col : ColumnSchema) (ws : List String)
      → check_source_column source destination dest_cols col ≡ ok ws
      → Fits col
  unfolding check_source_column
  check_source_column-Fits col ws h d e = clash→ne _ _ (ground arith)

  Fits-check_source_column :
      (col : ColumnSchema)
      → Fits col
      → (ws : List String) × (check_source_column source destination dest_cols col ≡ ok ws)
  unfolding check_source_column
  Fits-check_source_column col f = elim (Option-cases (lookup col.name dest_cols)) [
    | inl e ↦ ok_of_is_ok _ (ground arith)
    | inr (d, e) ↦
        ok_of_is_ok _ (ground (arith, ne→clash (family col.data_type) (family d.data_type) (f d e)))
  ]

  pub check_source_columns-Fits :
      (cols : List ColumnSchema) (ws : List String)
      → check_source_columns source destination dest_cols cols ≡ ok ws
      → All Fits cols
  unfolding check_source_columns
  check_source_columns-Fits [] ws h = tt
  check_source_columns-Fits (col ∷ cols) ws h =
      let (ws1, e, h') = >>=-eq-ok _ _ h in
      let (ws2, e', _) = >>=-eq-ok _ _ h' in
      (check_source_column-Fits col ws1 e, check_source_columns-Fits cols ws2 e')

  pub Fits-check_source_columns :
      (cols : List ColumnSchema)
      → All Fits cols
      → (ws : List String) × (check_source_columns source destination dest_cols cols ≡ ok ws)
  unfolding check_source_columns
  Fits-check_source_columns [] f = ([], refl)
  Fits-check_source_columns (col ∷ cols) f =
      let (ws, e) = Fits-check_source_column col f.0 in
      let (rest, e') = Fits-check_source_columns cols f.1 in (ws ++ rest, rw (e, e'))

module _ (source destination : TableSchema) (src_cols : Dict ColumnSchema) where
  abbrev pub Served : ColumnSchema → Type 0
  Served d = lookup d.name src_cols ≡ none → IsOptional d

  check_dest_column-Served :
      (d : ColumnSchema) (ws : List String)
      → check_dest_column source destination src_cols d.name d ≡ ok ws
      → Served d
  unfolding check_dest_column
  check_dest_column-Served d ws h e = ground arith

  Served-check_dest_column :
      (d : ColumnSchema)
      → Served d
      → (ws : List String) × (check_dest_column source destination src_cols d.name d ≡ ok ws)
  unfolding check_dest_column
  Served-check_dest_column d f = elim (Option-cases (lookup d.name src_cols)) [
    | inl e ↦ ok_of_is_ok _ (ground (arith, f e))
    | inr (c, e) ↦ ok_of_is_ok _ (ground arith)
  ]

  pub check_dest_columns-Served :
      (cols : List ColumnSchema) (ws : List String)
      → check_dest_columns source destination src_cols (map entry cols) ≡ ok ws
      → All Served cols
  unfolding check_dest_columns
  check_dest_columns-Served [] ws h = tt
  check_dest_columns-Served (d ∷ cols) ws h =
      let (ws1, e, h') = >>=-eq-ok _ _ h in
      let (ws2, e', _) = >>=-eq-ok _ _ h' in
      (check_dest_column-Served d ws1 e, check_dest_columns-Served cols ws2 e')

  pub Served-check_dest_columns :
      (cols : List ColumnSchema)
      → All Served cols
      → (ws : List String) × (check_dest_columns source destination src_cols (map entry cols)
          ≡ ok ws)
  unfolding check_dest_columns
  Served-check_dest_columns [] f = ([], refl)
  Served-check_dest_columns (d ∷ cols) f =
      let (ws, e) = Served-check_dest_column d f.0 in
      let (rest, e') = Served-check_dest_columns cols f.1 in (ws ++ rest, rw (e, e'))
