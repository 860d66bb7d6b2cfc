-- ===== src/Migration/Mapper/Build.antt =====
-- `build_column_mappings`, and what the mappings that it builds put into the rows.
use migrate_app_backend.Base.{
  String, ◌≡◌, refl, ◌≢◌, sym, ap, ◌∙◌, true, Option, none, some, List, [], ◌∷◌, In, arith, ok, map,
  Option-cases, inl, inr,
}
use migrate_app_backend.Base.Dict.{lookup}
use migrate_app_backend.Schemas.Migration.{ColumnSchema, TableSchema, ColumnMapping}
use migrate_app_backend.Schemas.Columns.{
  columns_by_name, has_name, HasUniqueNames, lookup-columns_by_name, In-lookup-columns_by_name,
}
use migrate_app_backend.Migration.Value.{Python, Value, Row, value_or_null}
use migrate_app_backend.Migration.Mapper.{
  column_mapping, build_column_mappings, coerce, apply_mappings,
}
use migrate_app_backend.Migration.Mapper.Rows.{
  has_dest, HasUniqueDests, Pointwise, Pointwise-map, IsUnmapped, IsImage, apply_mappings-IsImage,
}

has_dest-map :
    (destination : Option TableSchema) (k : String) (cols : List ColumnSchema)
    → has_dest k (map (column_mapping destination) cols) ≡ has_name k cols
unfolding column_mapping
has_dest-map destination k [] = refl
has_dest-map destination k (c ∷ cols) = ground (arith, has_dest-map destination k cols)

map-HasUniqueDests :
    (destination : Option TableSchema) (cols : List ColumnSchema)
    → HasUniqueNames cols
    → HasUniqueDests (map (column_mapping destination) cols)
map-HasUniqueDests destination [] u = tt
map-HasUniqueDests destination (c ∷ cols) u = (
  has_dest-map destination _ cols ∙ (unfold column_mapping in u.0),
  map-HasUniqueDests destination cols u.1,
)

In-map : {A B : Type 0} (f : A → B) (a : A) (xs : List A) → In a xs → In (f a) (map f xs)
In-map f a [] i = absurd i
In-map f a (x ∷ xs) (inl e) = inl (ap f e)
In-map f a (x ∷ xs) (inr i) = inr (In-map f a xs i)

In-map-inv :
    {A B : Type 0} (f : A → B) (b : B) (xs : List A)
    → In b (map f xs)
    → (a : A) × In a xs × (b ≡ f a)
In-map-inv f b [] i = absurd i
In-map-inv f b (x ∷ xs) (inl e) = (x, inl refl, e)
In-map-inv f b (x ∷ xs) (inr i) = let (a, j, e) = In-map-inv f b xs i in (a, inr j, e)

module _ (P : Python) (source destination : TableSchema) where
  -- What a row becomes on its way into an existing table.
  pub record Arrives (row new_row : Row P) : Type 0 where
    pub shared :
        (s d : ColumnSchema)
        → In s source.columns
        → In d destination.columns
        → s.name ≡ d.name
        → (v : Value P) × (coerce P (value_or_null (lookup s.name row)) d.data_type ≡ ok v)
          × (lookup d.name new_row ≡ some v)
    pub dropped :
        (k : String)
        → ((s d : ColumnSchema)
            → In s source.columns
            → In d destination.columns
            → s.name ≡ d.name
            → s.name ≢ k)
        → lookup k new_row ≡ none

  module _ (distinct : HasUniqueNames source.columns)
      (unique : HasUniqueNames destination.columns) where
    mapping_of :
        (s d : ColumnSchema)
        → In d destination.columns
        → s.name ≡ d.name
        → let m = column_mapping (some destination) s in
          (m.include ≡ true) × (m.dest_type ≡ d.data_type)
    unfolding column_mapping
    mapping_of s d j n =
        let e = lookup-columns_by_name d destination.columns unique j in rw (n, e) (refl, refl)

    found_column :
        (s : ColumnSchema)
        → (column_mapping (some destination) s).include ≡ true
        → (d : ColumnSchema) × (lookup s.name (columns_by_name destination.columns) ≡ some d)
    unfolding column_mapping
    found_column s h = elim (Option-cases (lookup s.name (columns_by_name destination.columns))) [
      | inl e ↦ absurd (ground arith)
      | inr found ↦ found
    ]

    Unmapped :
        (k : String)
        → ((s d : ColumnSchema)
            → In s source.columns
            → In d destination.columns
            → s.name ≡ d.name
            → s.name ≢ k)
        → IsUnmapped k (build_column_mappings source (some destination))
    unfolding build_column_mappings column_mapping
    Unmapped k f m i included named =
        let (s, j, e) = In-map-inv (column_mapping (some destination)) m source.columns i in
        let (d, found) =
          found_column s (ap (λ (c : ColumnMapping). c.include) (sym e) ∙ included) in
        let (jd, n) = In-lookup-columns_by_name s.name d destination.columns unique found in
        f s d j jd (sym n) (ap (λ (c : ColumnMapping). c.dest_col) (sym e) ∙ named)

    IsImage-Arrives :
        (row new_row : Row P)
        → IsImage P (build_column_mappings source (some destination)) row new_row
        → Arrives row new_row
    unfolding build_column_mappings column_mapping
    IsImage-Arrives row new_row image = record {
      shared = λ s d i j n.
          let m = column_mapping (some destination) s in
          let (included, typed) = mapping_of s d j n in
          let (v, e, found) =
            image.carried m (In-map (column_mapping (some destination)) s source.columns i)
              included in
          (v, rw typed at e, rw n at found);
      dropped = λ k f. image.nothing_else k (Unmapped k f);
    }

    -- Into an existing table, when column names are distinct in both schemas and no coercion raises,
    -- every row of the batch becomes one row that holds, for each column that both tables have, the
    -- source's value coerced to the destination's type, and nothing else.
    pub apply_mappings-Arrives :
        (rows out : List (Row P))
        → apply_mappings P rows (build_column_mappings source (some destination)) ≡ ok out
        → Pointwise Arrives rows out
    apply_mappings-Arrives rows out h = Pointwise-map _ Arrives IsImage-Arrives rows out (
        apply_mappings-IsImage P rows out (build_column_mappings source (some destination))
          (unfold build_column_mappings in
            map-HasUniqueDests (some destination) source.columns distinct)
          h)
