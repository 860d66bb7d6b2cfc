-- ===== src/Migration/Mapper/Rows.antt =====
-- What `apply_mappings` puts into each row.
use mathlib.Core.List.{◌++◌}
use migrate_app_backend.Base.{
  String, ◌≡◌, refl, ◌≢◌, sym, ap, ◌∙◌, Bool, true, false, ◌||◌, none, some, List, [], ◌∷◌, In,
  arith, ok, Bool-cases, inl, inr, str_eq, eq_iff, eq_refl,
}
use migrate_app_backend.Base.Dict.{lookup, insert, lookup-insert}
use migrate_app_backend.Base.Raise.{◌>>=◌, >>=-eq-ok}
use migrate_app_backend.Schemas.Migration.{ColumnMapping}
use migrate_app_backend.Migration.Value.{Python, Value, Row, value_or_null}
use migrate_app_backend.Migration.Mapper.{
  active_mappings, coerce, map_row, map_rows, apply_mappings,
}

abbrev pub has_dest : String → List ColumnMapping → Bool
has_dest k [] = false
has_dest k (m ∷ ms) = str_eq m.dest_col k || has_dest k ms

-- No two mappings write one column.
abbrev pub HasUniqueDests : List ColumnMapping → Type 0
HasUniqueDests [] = Unit
HasUniqueDests (m ∷ ms) = (has_dest m.dest_col ms ≡ false) × HasUniqueDests ms

has_dest-active :
    (k : String) (ms : List ColumnMapping)
    → has_dest k ms ≡ false
    → has_dest k (active_mappings ms) ≡ false
unfolding active_mappings
has_dest-active k [] h = refl
has_dest-active k (m ∷ ms) h = ground (arith, has_dest-active k ms)

active-HasUniqueDests :
    (ms : List ColumnMapping) → HasUniqueDests ms → HasUniqueDests (active_mappings ms)
unfolding active_mappings
active-HasUniqueDests [] u = tt
active-HasUniqueDests (m ∷ ms) u = elim (Bool-cases m.include) [
  | inl e ↦ rw e (has_dest-active m.dest_col ms u.0, active-HasUniqueDests ms u.1)
  | inr e ↦ rw e (active-HasUniqueDests ms u.1)
]

In-active :
    (m : ColumnMapping) (ms : List ColumnMapping)
    → In m ms
    → m.include ≡ true
    → In m (active_mappings ms)
unfolding active_mappings
In-active m [] i h = absurd i
In-active m (x ∷ ms) (inl e) h = simp (ap (λ (c : ColumnMapping). c.include) (sym e) ∙ h) (inl e)
In-active m (x ∷ ms) (inr i) h = elim (Bool-cases x.include) [
  | inl e ↦ simp e (inr (In-active m ms i h))
  | inr e ↦ simp e (In-active m ms i h)
]

-- No included mapping writes `k`.
abbrev pub IsUnmapped : String → List ColumnMapping → Type 0
IsUnmapped k ms = (m : ColumnMapping) → In m ms → m.include ≡ true → m.dest_col ≢ k

has_dest-IsUnmapped :
    (k : String) (ms : List ColumnMapping)
    → IsUnmapped k ms
    → has_dest k (active_mappings ms) ≡ false
unfolding active_mappings
has_dest-IsUnmapped k [] f = refl
has_dest-IsUnmapped k (m ∷ ms) f =
    let rest = has_dest-IsUnmapped k ms (λ c i. f c (inr i)) in
    elim (Bool-cases m.include) [
      | inl e ↦ rw e (ground (arith, f m (inl refl) e, eq_iff m.dest_col k))
      | inr e ↦ rw e rest
    ]

-- The two lists are as long as one another, and related member by member.
abbrev pub Pointwise : {A : Type 0} → (A → A → Type 0) → List A → List A → Type 0
Pointwise R [] [] = Unit
Pointwise R (x ∷ xs) (y ∷ ys) = R x y × Pointwise R xs ys
Pointwise R _ _ = ⊥

pub Pointwise-map :
    {A : Type 0} (R S : A → A → Type 0)
    → ((x y : A) → R x y → S x y)
    → (xs ys : List A) → Pointwise R xs ys
    → Pointwise S xs ys
Pointwise-map R S f [] [] h = tt
Pointwise-map R S f (x ∷ xs) (y ∷ ys) h = (f x y h.0, Pointwise-map R S f xs ys h.1)
Pointwise-map R S f [] (y ∷ ys) h = absurd h
Pointwise-map R S f (x ∷ xs) [] h = absurd h

module _ (P : Python) where
  -- The value of the mapping's source column, coerced to the type of its destination column.
  abbrev pub Carries : ColumnMapping → Row P → Row P → Type 0
  Carries m row new_row =
      (v : Value P) × (coerce P (value_or_null (lookup m.source_col row)) m.dest_type ≡ ok v)
      × (lookup m.dest_col new_row ≡ some v)

  pub record IsImage (ms : List ColumnMapping) (row new_row : Row P) : Type 0 where
    pub carried : (m : ColumnMapping) → In m ms → m.include ≡ true → Carries m row new_row
    pub nothing_else : (k : String) → IsUnmapped k ms → lookup k new_row ≡ none

  map_row-cons :
      (row acc new_row : Row P) (m : ColumnMapping) (ms : List ColumnMapping)
      → map_row P row (m ∷ ms) acc ≡ ok new_row
      → (v : Value P) × (coerce P (value_or_null (lookup m.source_col row)) m.dest_type ≡ ok v)
        × (map_row P row ms (insert m.dest_col v acc) ≡ ok new_row)
  unfolding map_row
  map_row-cons row acc new_row m ms =
      >>=-eq-ok (coerce P (value_or_null (lookup m.source_col row)) m.dest_type)
        (λ v. map_row P row ms (insert m.dest_col v acc))

  map_rows-cons :
      (row : Row P) (rows out : List (Row P)) (active : List ColumnMapping)
      → map_rows P active (row ∷ rows) ≡ ok out
      → (new_row : Row P) × (rest : List (Row P)) × (map_row P row active [] ≡ ok new_row)
        × (map_rows P active rows ≡ ok rest)
        × (out ≡ new_row ∷ rest)
  unfolding map_rows
  map_rows-cons row rows out active h =
      let (new_row, e, h1) =
        >>=-eq-ok (map_row P row active [])
          (λ new_row. map_rows P active rows >>= λ rest. ok (new_row ∷ rest)) h in
      let (rest, e', h2) = >>=-eq-ok (map_rows P active rows) (λ rest. ok (new_row ∷ rest)) h1 in
      (new_row, rest, e, e', ground arith)

  map_row-keeps :
      (k : String) (row acc new_row : Row P) (ms : List ColumnMapping)
      → has_dest k ms ≡ false
      → map_row P row ms acc ≡ ok new_row
      → lookup k new_row ≡ lookup k acc
  unfolding map_row
  map_row-keeps k row acc new_row [] u h = ground arith
  map_row-keeps k row acc new_row (m ∷ ms) u h =
      let (v, e, h') = map_row-cons row acc new_row m ms h in
      ground (
        arith,
        map_row-keeps k row (insert m.dest_col v acc) new_row ms (ground arith) h',
        lookup-insert k m.dest_col v acc,
      )

  map_row-Carries :
      (c : ColumnMapping) (row acc new_row : Row P) (ms : List ColumnMapping)
      → HasUniqueDests ms
      → In c ms
      → map_row P row ms acc ≡ ok new_row
      → Carries c row new_row
  unfolding map_row
  map_row-Carries c row acc new_row [] u i h = absurd i
  map_row-Carries c row acc new_row (m ∷ ms) u (inl same) h =
      let (v, e, h') = map_row-cons row acc new_row m ms h in
      let kept = map_row-keeps m.dest_col row (insert m.dest_col v acc) new_row ms u.0 h' in
      rw same
        (v, e, ground (arith, kept, lookup-insert m.dest_col m.dest_col v acc, eq_refl m.dest_col))
  map_row-Carries c row acc new_row (m ∷ ms) u (inr i) h =
      let (v, e, h') = map_row-cons row acc new_row m ms h in
      map_row-Carries c row (insert m.dest_col v acc) new_row ms u.1 i h'

  map_row-IsImage :
      (row new_row : Row P) (ms : List ColumnMapping)
      → HasUniqueDests ms
      → map_row P row (active_mappings ms) [] ≡ ok new_row
      → IsImage ms row new_row
  map_row-IsImage row new_row ms u h = record {
    carried = λ m i e.
        map_row-Carries m row [] new_row (active_mappings ms) (active-HasUniqueDests ms u)
          (In-active m ms i e) h;
    nothing_else = λ k f.
        map_row-keeps k row [] new_row (active_mappings ms) (has_dest-IsUnmapped k ms f) h
        ∙ unfold lookup in refl;
  }

  map_rows-IsImage :
      (rows out : List (Row P)) (ms : List ColumnMapping)
      → HasUniqueDests ms
      → map_rows P (active_mappings ms) rows ≡ ok out
      → Pointwise (IsImage ms) rows out
  unfolding map_rows
  map_rows-IsImage [] [] ms u h = tt
  map_rows-IsImage [] (y ∷ ys) ms u h = cc
  map_rows-IsImage (row ∷ rows) out ms u h =
      let (new_row, rest, e, e', same) = map_rows-cons row rows out (active_mappings ms) h in
      rw same (map_row-IsImage row new_row ms u e, map_rows-IsImage rows rest ms u e')

  -- When no two mappings write one column and `apply_mappings` does not raise, it returns one row
  -- for each row: every included mapping's column holds the coerced value of its source column, and
  -- no other column is there.
  pub apply_mappings-IsImage :
      (rows out : List (Row P)) (mappings : List ColumnMapping)
      → HasUniqueDests mappings
      → apply_mappings P rows mappings ≡ ok out
      → Pointwise (IsImage mappings) rows out
  unfolding apply_mappings
  apply_mappings-IsImage rows out mappings u h = map_rows-IsImage rows out mappings u h

  -- Rows are mapped one by one.
  pub map_rows-append :
      (active : List ColumnMapping) (xs ys out1 out2 : List (Row P))
      → map_rows P active xs ≡ ok out1
      → map_rows P active ys ≡ ok out2
      → map_rows P active (xs ++ ys) ≡ ok (out1 ++ out2)
  unfolding map_rows
  map_rows-append active [] ys out1 out2 e f = ground arith
  map_rows-append active (x ∷ xs) ys out1 out2 e f =
      let (new_row, rest, e1, e2, same) = map_rows-cons x xs out1 active e in
      rw (same, e1, map_rows-append active xs ys rest out2 e2 f)
