-- ===== src/Providers/Sql.antt =====
-- What the providers in app/providers share: the library of a database, and pieces of statements.
use migrate_app_backend.Base.{
  ℕ, String, Option, none, some, Bool, List, [], ◌∷◌, map, Exception, if◌then◌else◌, ltb,
}
use migrate_app_backend.Base.Text.{◌<>◌, join, show}
use migrate_app_backend.Base.Dict.{lookup}
use migrate_app_backend.Base.Effect.{Act, pure, throw}
use migrate_app_backend.Schemas.Migration.{ColumnSchema}
use migrate_app_backend.Migration.Value.{Python, Value, Row, value_or_null}

-- A connection or a pool of a library. The queries of a catalogue are the library's: `tables` gives
-- the names of the tables in order, `columns` a row of the type `C` for each column of a table, in
-- order, and `exists` whether a table is there.
pub record Driver (P : Python) (W C : Type 0) : Type 0 where
  pub execute : String → Act W (Unit {0})
  pub executemany : String → List (List (Value P)) → Act W (Unit {0})
  pub commit : Act W (Unit {0})
  -- the first number of the first row, if there is a row
  pub count : String → Act W (Option ℕ)
  -- the rows of a query, with its limit and its offset
  pub fetchall : String → ℕ → ℕ → Act W (List (Row P))
  -- the rows of any query, with its parameters
  pub query : String → List (Value P) → Act W (List (Row P))
  pub tables : Act W (List String)
  pub columns : String → Act W (List C)
  pub exists : String → Act W Bool

-- `assert …, "Not connected"`
abbrev pub connected : {P : Python} {W C : Type 0} → Option (Driver P W C) → Act W (Driver P W C)
connected none = throw (Exception.other_error "Not connected")
connected (some conn) = pure conn

-- an identifier between quotes
unfoldable pub quoted : String → String → String
quoted q name = q <> name <> q

unfoldable pub quoted_names : String → List String → String
unfolding quoted
quoted_names q names = join ", " (map (quoted q) names)

-- `", ".join(…) if columns else "*"`
unfoldable pub selected : String → Option (List String) → String
unfolding quoted_names
selected q none = "*"
selected q (some []) = "*"
selected q (some (c ∷ cs)) = quoted_names q (c ∷ cs)

unfoldable pub null_clause : ColumnSchema → String
null_clause col = if col.is_nullable then "" else " NOT NULL"

-- a length that is there and is not 0
abbrev pub positive : Option ℕ → Option ℕ
positive none = none
positive (some n) = if ltb 0 n then some n else none

abbrev pub with_precision : String → Option ℕ → Option ℕ → String
with_precision dtype (some p) (some s) = dtype <> "(" <> show p <> "," <> show s <> ")"
with_precision dtype _ _ = dtype

abbrev pub with_length : String → Option ℕ → String → String
with_length dtype (some n) other = dtype <> "(" <> show n <> ")"
with_length dtype none other = other

-- the type of a column with its size
unfoldable pub sized_type : ColumnSchema → String
sized_type col =
    with_length col.data_type (positive col.max_length)
      (with_precision col.data_type (positive col.precision) (positive col.scale))

-- `", PRIMARY KEY (…)"`
unfoldable pub key_clause : String → List String → String
unfolding quoted_names
key_clause q [] = ""
key_clause q (k ∷ ks) = ", PRIMARY KEY (" <> quoted_names q (k ∷ ks) <> ")"

-- `[c.name for c in columns if c.is_primary_key]`
unfoldable pub key_names : List ColumnSchema → List String
key_names [] = []
key_names (c ∷ cs) = let rest = key_names cs in if c.is_primary_key then c.name ∷ rest else rest

module _ {P : Python} where
  -- `columns or list(rows[0].keys())`
  unfoldable pub columns_or_keys : Option (List String) → Row P → List String
  columns_or_keys (some (c ∷ cs)) row = c ∷ cs
  columns_or_keys _ row = map (λ (p : String × Value P). p.0) row

  -- `tuple(r.get(c) for c in cols)`
  unfoldable pub record_of : List String → Row P → List (Value P)
  record_of cols r = map (λ c. value_or_null (lookup c r)) cols

  unfoldable pub records_of : List String → List (Row P) → List (List (Value P))
  unfolding record_of
  records_of cols rows = map (record_of cols) rows

  -- `(params or {}).values()`
  unfoldable pub values_of : Option (Row P) → List (Value P)
  values_of none = []
  values_of (some params) = map (λ (p : String × Value P). p.1) params

-- `[mark] * n`
unfoldable pub repeated : {A : Type 0} → A → List String → List A
repeated mark [] = []
repeated mark (c ∷ cs) = mark ∷ repeated mark cs

-- `int(row[0]) if row else 0`
abbrev pub or_zero : Option ℕ → ℕ
or_zero none = 0
or_zero (some n) = n
