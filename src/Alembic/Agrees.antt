-- ===== src/Alembic/Agrees.antt =====
-- The tables that `upgrade` makes, against those that app/models declares.
use migrate_app_backend.Base.{◌≡◌, refl, sym, ap, ◌∙◌, String, some, Exception, ok}
use migrate_app_backend.Ddl.{Operations, IsLawful}
use migrate_app_backend.Ddl.Schema.{
  Schema, written, write_table, set_index, column_indexes, create_index, create_indexes, create_all,
  documented,
}
use migrate_app_backend.Ddl.Undo.{
  Reaches, Reaches-then, create_table-ok, create_missing-ok, written_comm,
}
use migrate_app_backend.Alembic.{
  upgrade, status_index, created_index, connections, migrations, migration_logs,
}
use migrate_app_backend.Alembic.Steps.{IsReady, id_index, upgraded, upgrade-ok, upgrade-Simulates}
use migrate_app_backend.Models.Metadata.{
  init_db, metadata, connection_table, migration_table, migration_log_table,
}

-- the schema after each table of `create_all`
abbrev log_schema : Schema → Schema
log_schema s = set_index created_index.name (some created_index) (
    set_index id_index.name (some id_index)
      (write_table migration_log_table (write_table connection_table s)))

abbrev created : Schema → Schema
created s = write_table migration_table (log_schema s)

module _ (taken missing : String → Exception) (s : Schema) (h : IsReady s) where
  create_all-ok : Reaches (init_db (documented taken missing)) s (created s)
  unfolding init_db documented create_all write_table set_index written create_indexes create_index
      column_indexes connection_table migration_table migration_log_table
  create_all-ok =
      Reaches-then {t = write_table connection_table s}
        (create_missing-ok s taken missing connection_table _ h.connections
          (create_table-ok s taken missing connection_table _ h.connections (record { at = refl })))
        (Reaches-then {t = log_schema s}
          (create_missing-ok _ taken missing migration_log_table _ h.migration_logs (
            create_table-ok (write_table connection_table s) taken missing migration_log_table _
              h.migration_logs (record { at = rw (h.id_index, h.created_index) refl })))
          (Reaches-then {t = created s}
            (create_missing-ok _ taken missing migration_table _ h.migrations (
              create_table-ok (log_schema s) taken missing migration_table _ h.migrations
                (record { at = refl })))
            (record { at = refl })))

  tables_agree : (upgraded s).tables ≡ (created s).tables
  unfolding write_table set_index connections migrations migration_logs connection_table
      migration_table migration_log_table
  tables_agree = written_comm "migration_logs" "migrations" _ _ _ refl

  indexes_agree :
      (upgraded s).indexes ≡ written status_index.name (some status_index) (created s).indexes
  unfolding write_table set_index
  indexes_agree =
      ap (written created_index.name (some created_index))
        (written_comm id_index.name status_index.name _ _ _ refl)
      ∙ written_comm created_index.name status_index.name _ _ _ refl

-- On a database in which the names that `upgrade` takes are free and each index lies on a table that is
-- there, `upgrade` and `init_db` both come back. They leave the same tables, column by column, and
-- `upgrade` leaves the indexes that `init_db` leaves and `ix_migrations_status`.
pub upgrade-init_db :
    {S : Type 0} {view : S → Schema} {op : Operations S} (taken missing : String → Exception)
    → IsLawful view op (documented taken missing)
    → (s : S) → IsReady (view s)
    → let migrated = upgrade op s in
      let made = init_db op s in
      (migrated.0 ≡ ok tt)
      × (made.0 ≡ ok tt)
      × ((view migrated.1).tables ≡ (view made.1).tables)
      × ((view migrated.1).indexes
          ≡ written status_index.name (some status_index) (view made.1).indexes)
unfolding init_db
upgrade-init_db {view = view} taken missing lawful s h =
    let up = upgrade-Simulates lawful in
    let all = lawful.create_all metadata in
    let a = upgrade-ok taken missing (view s) h in
    let b = create_all-ok taken missing (view s) h in
    let ea = up.state s ∙ ap (λ r. r.1) a.at in
    let eb = all.state s ∙ ap (λ r. r.1) b.at in
    (
      up.result s ∙ ap (λ r. r.0) a.at,
      all.result s ∙ ap (λ r. r.0) b.at,
      ap (λ (t : Schema). t.tables) ea
          ∙ tables_agree taken missing (view s) h
          ∙ ap (λ (t : Schema). t.tables) (sym eb),
      ap (λ (t : Schema). t.indexes) ea
          ∙ indexes_agree taken missing (view s) h
          ∙ ap (λ (t : Schema). written status_index.name (some status_index) t.indexes) (sym eb),
    )
