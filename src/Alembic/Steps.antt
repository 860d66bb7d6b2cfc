-- ===== src/Alembic/Steps.antt =====
-- The schema after each operation of `upgrade`, on a database that is ready for it.
use migrate_app_backend.Base.{
  ◌≡◌, refl, String, none, some, true, false, is_some, eq_iff, arith, [], ◌∷◌, Exception,
  Option-cases, inl, inr,
}
use migrate_app_backend.Ddl.{Index, Operations, Simulates, IsLawful, Simulates-bind}
use migrate_app_backend.Ddl.Schema.{
  Schema, written, lies_on, write_table, set_index, column_indexes, create_index, create_indexes,
  create_table, documented,
}
use migrate_app_backend.Ddl.Undo.{Reaches, Reaches-then, create_index-ok, create_table-ok}
use migrate_app_backend.Alembic.{
  upgrade, connections, migrations, migration_logs, status_index, created_index,
}

-- The names that `upgrade` takes are free, and an index lies on a table that is there.
pub record IsReady (s : Schema) : Type 0 where
  pub connections : s.tables "connections" ≡ none
  pub migrations : s.tables "migrations" ≡ none
  pub migration_logs : s.tables "migration_logs" ≡ none
  pub status_index : s.indexes "ix_migrations_status" ≡ none
  pub id_index : s.indexes "ix_migration_logs_migration_id" ≡ none
  pub created_index : s.indexes "ix_migration_logs_migration_created" ≡ none
  pub placed : (k : String) (x : Index) → s.indexes k ≡ some x → is_some (s.tables x.table) ≡ true

-- the schema after each operation of `upgrade`
abbrev pub id_index : Index
id_index = record {
  name = "ix_migration_logs_migration_id";
  table = "migration_logs";
  columns = "migration_id" ∷ [];
}

abbrev pub with_connections : Schema → Schema
with_connections s = write_table connections s

abbrev pub with_migrations : Schema → Schema
with_migrations s = write_table migrations (with_connections s)

abbrev pub with_status : Schema → Schema
with_status s = set_index status_index.name (some status_index) (with_migrations s)

abbrev pub with_logs : Schema → Schema
with_logs s = set_index id_index.name (some id_index) (write_table migration_logs (with_status s))

abbrev pub upgraded : Schema → Schema
upgraded s = set_index created_index.name (some created_index) (with_logs s)

pub lies_on_missing :
    (s : Schema) (h : IsReady s) (name k : String)
    → s.tables name ≡ none
    → lies_on name (s.indexes k) ≡ false
lies_on_missing s h name k e = elim (Option-cases (s.indexes k)) [
  | inl p ↦ rw p refl
  | inr (x, p) ↦ rw p (ground (arith, eq_iff name x.table, h.placed k x p, e))
]

module _ (taken missing : String → Exception) (s : Schema) (h : IsReady s) where
  create_logs : Reaches (create_table taken missing migration_logs) (with_status s) (with_logs s)
  unfolding write_table written set_index create_indexes create_index column_indexes migrations
      connections
  create_logs =
      create_table-ok (with_status s) taken missing migration_logs (with_logs s) h.migration_logs
        (record { at = rw h.id_index refl })

  pub upgrade-ok : Reaches (upgrade (documented taken missing)) s (upgraded s)
  unfolding upgrade documented write_table set_index written create_indexes column_indexes
      connections migrations
  upgrade-ok =
      Reaches-then {t = with_connections s}
        (create_table-ok s taken missing connections (with_connections s) h.connections
          (record { at = refl }))
        (Reaches-then {t = with_migrations s}
          (create_table-ok (with_connections s) taken missing migrations (with_migrations s)
            h.migrations (record { at = refl }))
          (Reaches-then {t = with_status s}
            (create_index-ok (with_migrations s) taken missing status_index h.status_index)
            (Reaches-then create_logs
              (create_index-ok (with_logs s) taken missing created_index h.created_index))))

module _ {S T : Type 0} {view : S → T} {op : Operations S} {model : Operations T}
    (lawful : IsLawful view op model) where
  pub upgrade-Simulates : Simulates view (upgrade op) (upgrade model)
  unfolding upgrade
  upgrade-Simulates =
      Simulates-bind view _ _
        (λ _.
          Simulates-bind view _ _
            (λ _.
              Simulates-bind view _ _
                (λ _.
                  Simulates-bind view _ _ (λ _. lawful.create_index created_index) _ _
                    (lawful.create_table migration_logs))
                _ _ (lawful.create_index status_index))
            _ _ (lawful.create_table migrations))
        _ _ (lawful.create_table connections)
