-- ===== src/Ddl/Undo.antt =====
-- The documented operations where they succeed, and what one leaves of another.
use migrate_app_backend.Base.{
  ◌≡◌, refl, ap, ◌∙◌, String, Option, none, some, true, false, is_some, str_eq, eq_iff, arith,
  Exception, ok, if◌then◌else◌,
}
use migrate_app_backend.Base.Effect.{Act, continue, ◌>>◌}
use migrate_app_backend.Ddl.{Index, Table}
use migrate_app_backend.Ddl.Schema.{
  Schema, written, lies_on, off_table, write_table, set_index, remove_table, column_indexes,
  create_index, create_indexes, create_table, create_missing, drop_index, drop_table,
}

-- A call returns, and takes one state to the other.
pub record Reaches {S : Type 0} (m : Act S (Unit {0})) (s t : S) : Type 0 where
  pub at : m s ≡ (ok tt, t)

module _ {S : Type 0} {m n : Act S (Unit {0})} {s t u : S} where
  pub Reaches-then : Reaches m s t → Reaches n t u → Reaches (m >> n) s u
  Reaches-then h k = record { at = (λ i. continue (h.at i).0 (λ _. n) (h.at i).1) ∙ k.at }

module _ {S : Type 0} {m : Act S (Unit {0})} {s t u : S} where
  pub Reaches-to : Reaches m s t → t ≡ u → Reaches m s u
  Reaches-to h e = record { at = h.at ∙ ap (λ r. (ok tt, r)) e }

module _ (s : Schema) where
  pub set_index_undo :
      (k : String) (x : Index) → s.indexes k ≡ none → set_index k none (set_index k (some x) s) ≡ s
  unfolding set_index written
  set_index_undo k x h i = record { tables = s.tables; indexes = λ j. at j i }
    where
      at :
          (j : String)
          → (if str_eq k j then none else (if str_eq k j then some x else s.indexes j))
            ≡ s.indexes j
      at j = ground (arith, eq_iff k j)

  pub remove_table-write_table :
      (t : Table)
      → s.tables t.name ≡ none
      → ((k : String) → lies_on t.name (s.indexes k) ≡ false)
      → remove_table t.name (write_table t s) ≡ s
  unfolding remove_table write_table written
  remove_table-write_table t h free i = record { tables = λ j. at j i; indexes = λ k. off k i }
    where
      at : (j : String) → (remove_table t.name (write_table t s)).tables j ≡ s.tables j
      at j = ground (arith, eq_iff t.name j)

      off : (k : String) → off_table t.name (s.indexes k) ≡ s.indexes k
      off k = rw (free k) refl

  pub remove_table-set_index :
      (name k : String) (x : Index)
      → lies_on name (some x) ≡ true
      → s.indexes k ≡ none
      → remove_table name (set_index k (some x) s) ≡ remove_table name s
  unfolding remove_table set_index written
  remove_table-set_index name k x l h i = record {
    tables = λ j. written name none s.tables j;
    indexes = λ j. at j i;
  }
    where
      at :
          (j : String)
          → off_table name (if str_eq k j then some x else s.indexes j)
            ≡ off_table name (s.indexes j)
      at j = ground (arith, eq_iff k j)

  module _ (taken missing : String → Exception) where
    pub create_index-ok :
        (x : Index)
        → s.indexes x.name ≡ none
        → Reaches (create_index taken missing x) s (set_index x.name (some x) s)
    unfolding create_index
    create_index-ok x h = record { at = rw h refl }

    pub create_table-ok :
        (t : Table) (u : Schema)
        → s.tables t.name ≡ none
        → Reaches
            (do
              create_indexes taken missing (column_indexes t.name t.columns)
              create_indexes taken missing t.table_args)
            (write_table t s)
            u
        → Reaches (create_table taken missing t) s u
    unfolding create_table
    create_table-ok t u h k = record { at = rw h k.at }

    pub create_missing-ok :
        (t : Table) (u : Schema)
        → s.tables t.name ≡ none
        → Reaches (create_table taken missing t) s u
        → Reaches (create_missing taken missing t) s u
    unfolding create_missing
    create_missing-ok t u h k = record { at = rw h k.at }

    pub drop_index-ok :
        (k name : String)
        → lies_on name (s.indexes k) ≡ true
        → Reaches (drop_index taken missing k name) s (set_index k none s)
    unfolding drop_index
    drop_index-ok k name h = record { at = rw h refl }

    pub drop_table-ok :
        (name : String)
        → is_some (s.tables name) ≡ true
        → Reaches (drop_table taken missing name) s (remove_table name s)
    unfolding drop_table
    drop_table-ok name h = record { at = rw h refl }

module _ {V : Type 0} where
  -- Values under different names may be written in either order.
  pub written_comm :
      (a b : String) (x y : Option V) (f : String → Option V)
      → str_eq a b ≡ false
      → written a x (written b y f) ≡ written b y (written a x f)
  unfolding written
  written_comm a b x y f e i j = at i
    where
      at :
          (if str_eq a j then x else (if str_eq b j then y else f j))
          ≡ (if str_eq b j then y else (if str_eq a j then x else f j))
      at = ground (arith, eq_iff a j, eq_iff b j, eq_iff a b)
