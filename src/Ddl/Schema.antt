-- ===== src/Ddl/Schema.antt =====
-- The tables and the indexes of a database under their names, and what the documentation of Alembic
-- and SQLAlchemy says of the operations: a name that is taken or not there is refused, and dropping
-- a table drops its indexes. The refusals are those of the database.
use migrate_app_backend.Base.{
  String, Option, none, some, Bool, false, List, [], ◌∷◌, map, Exception, if◌then◌else◌, is_some,
  str_eq,
}
use migrate_app_backend.Base.Text.{◌<>◌}
use migrate_app_backend.Base.Effect.{Act, pure, throw, gets, modify, ◌>>=◌, ◌>>◌}
use migrate_app_backend.Ddl.{Column, Index, Table, StoredColumn, Operations}

pub record Schema : Type 0 where
  pub tables : String → Option (List StoredColumn)
  pub indexes : String → Option Index

module _ {V : Type 0} where
  unfoldable pub written : String → Option V → (String → Option V) → String → Option V
  written k v f j = if str_eq k j then v else f j

abbrev pub lies_on : String → Option Index → Bool
lies_on name none = false
lies_on name (some x) = str_eq name x.table

abbrev pub off_table : String → Option Index → Option Index
off_table name x = if lies_on name x then none else x

unfoldable pub stored : Column → StoredColumn
stored c = record {
  name = c.name;
  type = c.type;
  primary_key = c.primary_key;
  nullable = c.nullable;
  server_default = c.server_default;
}

unfoldable pub write_table : Table → Schema → Schema
unfolding written stored
write_table t s = record {
  tables = written t.name (some (map stored t.columns)) s.tables;
  indexes = s.indexes;
}

unfoldable pub set_index : String → Option Index → Schema → Schema
unfolding written
set_index name x s = record { tables = s.tables; indexes = written name x s.indexes }

unfoldable pub remove_table : String → Schema → Schema
unfolding written
remove_table name s = record {
  tables = written name none s.tables;
  indexes = λ k. off_table name (s.indexes k);
}

-- the index of a column that asks for one, under the name that SQLAlchemy gives it
unfoldable pub column_index : String → Column → Index
column_index table c = record {
  name = "ix_" <> table <> "_" <> c.name;
  table = table;
  columns = c.name ∷ [];
}

unfoldable pub column_indexes : String → List Column → List Index
unfolding column_index
column_indexes table [] = []
column_indexes table (c ∷ cs) =
    let rest = column_indexes table cs in if c.index then column_index table c ∷ rest else rest

module _ (taken missing : String → Exception) where
  -- `m` if a name is free, if `there` says that it is not
  unfoldable pub if_free : String → Bool → Act Schema (Unit {0}) → Act Schema (Unit {0})
  if_free name there m = if there then throw (taken name) else m

  unfoldable pub if_there : String → Bool → Act Schema (Unit {0}) → Act Schema (Unit {0})
  if_there name there m = if there then m else throw (missing name)

  unfoldable pub create_index : Index → Act Schema (Unit {0})
  unfolding if_free set_index
  create_index x s =
      if_free x.name (is_some (s.indexes x.name)) (modify (set_index x.name (some x))) s

  unfoldable pub create_indexes : List Index → Act Schema (Unit {0})
  unfolding create_index
  create_indexes [] = pure tt
  create_indexes (x ∷ xs) = do create_index x; create_indexes xs

  unfoldable pub create_table : Table → Act Schema (Unit {0})
  unfolding if_free write_table create_indexes column_indexes
  create_table t = do
    there ← gets (λ (s : Schema). is_some (s.tables t.name))
    if_free t.name there (modify (write_table t))
    create_indexes (column_indexes t.name t.columns)
    create_indexes t.table_args

  unfoldable pub drop_index : String → String → Act Schema (Unit {0})
  unfolding if_there set_index
  drop_index name table_name s =
      if_there name (lies_on table_name (s.indexes name)) (modify (set_index name none)) s

  unfoldable pub drop_table : String → Act Schema (Unit {0})
  unfolding if_there remove_table
  drop_table name s = if_there name (is_some (s.tables name)) (modify (remove_table name)) s

  -- a table that is there is left alone
  unfoldable pub create_missing : Table → Act Schema (Unit {0})
  unfolding create_table
  create_missing t s = (if is_some (s.tables t.name) then pure tt else create_table t) s

  unfoldable pub create_all : List Table → Act Schema (Unit {0})
  unfolding create_missing
  create_all [] = pure tt
  create_all (t ∷ ts) = do create_missing t; create_all ts

  -- the operations on a schema
  unfoldable pub documented : Operations Schema
  unfolding create_table drop_index drop_table create_all
  documented = record {
    create_table = create_table;
    create_index = create_index;
    drop_index = drop_index;
    drop_table = drop_table;
    create_all = create_all;
  }
