-- ===== src/Schemas/Columns.antt =====
-- The dict of columns by name that app/migration/validator.py and app/migration/mapper.py build,
-- and what it holds.
use mathlib.Core.List.{foldl, append_assoc, append-nil}
use migrate_app_backend.Base.{
  String, ◌≡◌, refl, sym, none, some, Bool, true, false, ◌||◌, List, [], ◌∷◌, ◌++◌, map, All, In,
  arith, str_eq, eq_iff, eq_refl, is_some, inl, inr, Bool-cases,
}
use migrate_app_backend.Base.Dict.{
  Dict, lookup, insert, lookup-insert, insert_fresh, lookup-append_fresh,
}
use migrate_app_backend.Schemas.Migration.{ColumnSchema}

abbrev add_column : Dict ColumnSchema → ColumnSchema → Dict ColumnSchema
add_column d c = insert c.name c d

-- `{c.name: c for c in columns}`
unfoldable pub columns_by_name : List ColumnSchema → Dict ColumnSchema
columns_by_name = foldl add_column []

abbrev pub has_name : String → List ColumnSchema → Bool
has_name k [] = false
has_name k (c ∷ cs) = str_eq c.name k || has_name k cs

contains-foldl :
    (k : String) (d : Dict ColumnSchema) (cs : List ColumnSchema)
    → is_some (lookup k (foldl add_column d cs)) ≡ (is_some (lookup k d) || has_name k cs)
contains-foldl k d [] = ground arith
contains-foldl k d (c ∷ cs) =
    ground (arith, contains-foldl k (insert c.name c d) cs, lookup-insert k c.name c d)

-- A name is in the dict exactly when a column has it.
pub contains-columns_by_name :
    (k : String) (cs : List ColumnSchema) → is_some (lookup k (columns_by_name cs)) ≡ has_name k cs
unfolding columns_by_name lookup
contains-columns_by_name k cs = contains-foldl k [] cs

pub has_name-In : (c : ColumnSchema) (cs : List ColumnSchema) → In c cs → has_name c.name cs ≡ true
has_name-In c [] i = absurd i
has_name-In c (x ∷ cs) (inl e) = rw (← e, eq_refl)
has_name-In c (x ∷ cs) (inr i) = ground (arith, has_name-In c cs i)

pub In-has_name :
    (k : String) (cs : List ColumnSchema)
    → has_name k cs ≡ true
    → (c : ColumnSchema) × In c cs × (c.name ≡ k)
In-has_name k [] h = cc
In-has_name k (x ∷ cs) h = elim (Bool-cases (str_eq x.name k)) [
  | inl e ↦ (x, inl refl, (eq_iff x.name k).0 e)
  | inr e ↦ let (c, i, n) = In-has_name k cs (rw e at h) in (c, inr i, n)
]

abbrev pub entry : ColumnSchema → String × ColumnSchema
entry c = (c.name, c)

-- No two columns have one name.
abbrev pub HasUniqueNames : List ColumnSchema → Type 0
HasUniqueNames [] = Unit
HasUniqueNames (c ∷ cs) = (has_name c.name cs ≡ false) × HasUniqueNames cs

IsFresh : Dict ColumnSchema → List ColumnSchema → Type 0
IsFresh d cs = All (λ c. lookup c.name d ≡ none) cs

IsFresh-append :
    (d : Dict ColumnSchema) (c : ColumnSchema) (cs : List ColumnSchema)
    → has_name c.name cs ≡ false
    → IsFresh d cs
    → IsFresh (d ++ entry c ∷ []) cs
unfolding IsFresh
IsFresh-append d c [] h f = tt
IsFresh-append d c (x ∷ cs) h f = (
  rw (lookup-append_fresh x.name d (entry c ∷ []) f.0)
      (unfold lookup in ground (arith, eq_iff x.name c.name, eq_iff c.name x.name)),
  IsFresh-append d c cs (ground arith) f.1,
)

foldl-add_column :
    (d : Dict ColumnSchema) (cs : List ColumnSchema)
    → HasUniqueNames cs
    → IsFresh d cs
    → foldl add_column d cs ≡ d ++ map entry cs
unfolding IsFresh
foldl-add_column d [] u f = sym (append-nil d)
foldl-add_column d (c ∷ cs) u f = rw (insert_fresh c.name c d f.0) (
    rw (foldl-add_column (d ++ entry c ∷ []) cs u.1 (IsFresh-append d c cs u.0 f.1))
      (append_assoc d (entry c ∷ []) (map entry cs)))

IsFresh-nil : (cs : List ColumnSchema) → IsFresh [] cs
unfolding IsFresh lookup
IsFresh-nil [] = tt
IsFresh-nil (c ∷ cs) = (refl, IsFresh-nil cs)

-- With unique names the dict has one entry for each column, in order.
pub columns_by_name-eq-map :
    (cs : List ColumnSchema) → HasUniqueNames cs → columns_by_name cs ≡ map entry cs
unfolding columns_by_name
columns_by_name-eq-map cs u = foldl-add_column [] cs u (IsFresh-nil cs)

lookup-map-entry :
    (c : ColumnSchema) (cs : List ColumnSchema)
    → HasUniqueNames cs
    → In c cs
    → lookup c.name (map entry cs) ≡ some c
unfolding lookup
lookup-map-entry c [] u i = absurd i
lookup-map-entry c (x ∷ cs) u (inl e) = rw (← e, eq_refl)
lookup-map-entry c (x ∷ cs) u (inr i) =
    ground (arith, lookup-map-entry c cs u.1 i, has_name-In c cs i, eq_iff x.name c.name)

In-lookup-map-entry :
    (k : String) (c : ColumnSchema) (cs : List ColumnSchema)
    → lookup k (map entry cs) ≡ some c
    → In c cs × (c.name ≡ k)
unfolding lookup
In-lookup-map-entry k c [] h = cc
In-lookup-map-entry k c (x ∷ cs) h = elim (Bool-cases (str_eq x.name k)) [
  | inl e ↦ (inl (ground arith), ground (arith, eq_iff x.name k))
  | inr e ↦ let (i, n) = In-lookup-map-entry k c cs (rw e at h) in (inr i, n)
]

pub lookup-columns_by_name :
    (c : ColumnSchema) (cs : List ColumnSchema)
    → HasUniqueNames cs
    → In c cs
    → lookup c.name (columns_by_name cs) ≡ some c
lookup-columns_by_name c cs u i = rw (columns_by_name-eq-map cs u) (lookup-map-entry c cs u i)

pub In-lookup-columns_by_name :
    (k : String) (c : ColumnSchema) (cs : List ColumnSchema)
    → HasUniqueNames cs
    → lookup k (columns_by_name cs) ≡ some c
    → In c cs × (c.name ≡ k)
In-lookup-columns_by_name k c cs u h =
    In-lookup-map-entry k c cs (rw (columns_by_name-eq-map cs u) at h)
