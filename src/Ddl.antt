-- ===== src/Ddl.antt =====
-- What app/models and alembic/versions say of tables to SQLAlchemy and to Alembic, and the
-- operations of these libraries that they call. The libraries are parameters: `Operations` has their
-- calls, and `IsLawful` compares a call with what its documentation says of the tables and indexes of
-- a database, which Ddl/Schema.antt writes out.
pub mod Schema
pub mod Undo
use migrate_app_backend.Base.{
  ◌≡◌, refl, ◌∙◌, ℕ, String, Option, Bool, true, List, [], ◌∷◌, Exception, Result, if◌then◌else◌,
}
use migrate_app_backend.Base.Effect.{Act, continue, ◌>>=◌, ok, raise, out_of_fuel}
use migrate_app_backend.Utils.Json.{Scalar}

pub data ColumnType : Type 0 where
  string : ℕ → ColumnType
  text integer big_integer : ColumnType
  date_time : (timezone : Bool) → ColumnType

-- `func.now()`
pub data SqlFunction : Type 0 where
  now : SqlFunction

-- `sa.Column` and `mapped_column`. A key that says nothing of `nullable` is not.
pub record Column : Type 0 where
  pub name : String
  pub type : ColumnType
  pub primary_key : Bool
  pub nullable : Bool
  -- the value that the client writes into a new row, and into one that it updates
  pub default : Option Scalar
  pub onupdate : Option SqlFunction
  pub server_default : Option SqlFunction
  pub index : Bool

pub record Index : Type 0 where
  pub name : String
  pub table : String
  pub columns : List String

pub record Table : Type 0 where
  pub name : String
  pub columns : List Column
  -- the indexes of `__table_args__`
  pub table_args : List Index

-- what a database keeps of a column
pub record StoredColumn : Type 0 where
  pub name : String
  pub type : ColumnType
  pub primary_key : Bool
  pub nullable : Bool
  pub server_default : Option SqlFunction

-- `op` of Alembic, and `MetaData.create_all` for the tables of a metadata
pub record Operations (S : Type 0) : Type 0 where
  pub create_table : Table → Act S (Unit {0})
  pub create_index : Index → Act S (Unit {0})
  pub drop_index : (name table_name : String) → Act S (Unit {0})
  pub drop_table : String → Act S (Unit {0})
  pub create_all : List Table → Act S (Unit {0})

-- The calls `m` and `n` come to the same, as far as `view` shows the state.
pub record Simulates {S T A : Type 0} (view : S → T) (m : Act S A) (n : Act T A) : Type 0 where
  pub result : (s : S) → (m s).0 ≡ (n (view s)).0
  pub state : (s : S) → view (m s).1 ≡ (n (view s)).1

-- Each operation does what the same operation of `model` does.
pub record IsLawful {S T : Type 0} (view : S → T) (op : Operations S) (model : Operations T)
    : Type 0 where
  pub create_table : (t : Table) → Simulates view (op.create_table t) (model.create_table t)
  pub create_index : (x : Index) → Simulates view (op.create_index x) (model.create_index x)
  pub drop_index :
      (name table_name : String)
      → Simulates view (op.drop_index name table_name) (model.drop_index name table_name)
  pub drop_table : (name : String) → Simulates view (op.drop_table name) (model.drop_table name)
  pub create_all : (ts : List Table) → Simulates view (op.create_all ts) (model.create_all ts)

module _ {S T A B : Type 0} (view : S → T) (f : A → Act S B) (g : A → Act T B)
    (k : (a : A) → Simulates view (f a) (g a)) where
  result-continue : (r : Result A) (s : S) → (continue r f s).0 ≡ (continue r g (view s)).0
  result-continue (ok a) s = (k a).result s
  result-continue (raise e) s = refl
  result-continue out_of_fuel s = refl

  state-continue : (r : Result A) (s : S) → view (continue r f s).1 ≡ (continue r g (view s)).1
  state-continue (ok a) s = (k a).state s
  state-continue (raise e) s = refl
  state-continue out_of_fuel s = refl

  pub Simulates-bind :
      (m : Act S A) (n : Act T A) → Simulates view m n → Simulates view (m >>= f) (n >>= g)
  Simulates-bind m n h = record {
    result =
        λ s. result-continue (m s).0 (m s).1 ∙ λ i. (continue (h.result s i) g (h.state s i)).0;
    state = λ s. state-continue (m s).0 (m s).1 ∙ λ i. (continue (h.result s i) g (h.state s i)).1;
  }
