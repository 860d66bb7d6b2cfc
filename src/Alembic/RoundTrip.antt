-- ===== src/Alembic/RoundTrip.antt =====
-- What `downgrade` leaves of `upgrade`.
use migrate_app_backend.Base.{◌≡◌, refl, ap, ◌∙◌, String, false, arith, Exception, ok}
use migrate_app_backend.Base.Effect.{◌>>◌}
use migrate_app_backend.Ddl.{Operations, Simulates, IsLawful, Simulates-bind}
use migrate_app_backend.Ddl.Schema.{
  Schema, written, lies_on, write_table, set_index, remove_table, drop_index, drop_table,
  documented,
}
use migrate_app_backend.Ddl.Undo.{
  Reaches, Reaches-then, Reaches-to, Reaches-to, set_index_undo, remove_table-write_table,
  remove_table-set_index, drop_index-ok, drop_table-ok,
}
use migrate_app_backend.Alembic.{
  upgrade, downgrade, connections, migrations, migration_logs, status_index, created_index,
}
use migrate_app_backend.Alembic.Steps.{
  IsReady, id_index, with_connections, with_migrations, with_status, with_logs, upgraded,
  lies_on_missing, upgrade-ok, upgrade-Simulates,
}

module _ (taken missing : String → Exception) (s : Schema) (h : IsReady s) where
  free_of_status : (k : String) → lies_on "migrations" ((with_connections s).indexes k) ≡ false
  unfolding write_table
  free_of_status k = lies_on_missing s h "migrations" k h.migrations

  free_of_logs : (k : String) → lies_on "migration_logs" ((with_status s).indexes k) ≡ false
  unfolding write_table set_index written
  free_of_logs k =
      let e = lies_on_missing s h "migration_logs" k h.migration_logs in ground (arith, e)

  undo_logs : remove_table "migration_logs" (with_logs s) ≡ with_status s
  unfolding write_table set_index written migration_logs connections migrations
  undo_logs =
      remove_table-set_index (write_table migration_logs (with_status s)) "migration_logs"
        id_index.name id_index refl h.id_index
      ∙ remove_table-write_table (with_status s) migration_logs h.migration_logs free_of_logs

  drop_created :
      Reaches
        (drop_index taken missing created_index.name "migration_logs")
        (upgraded s)
        (with_logs s)
  unfolding write_table set_index written
  drop_created =
      Reaches-to (drop_index-ok (upgraded s) taken missing created_index.name "migration_logs" refl)
        (set_index_undo (with_logs s) created_index.name created_index h.created_index)

  drop_logs : Reaches (drop_table taken missing "migration_logs") (with_logs s) (with_status s)
  unfolding write_table set_index written migration_logs
  drop_logs = Reaches-to (drop_table-ok (with_logs s) taken missing "migration_logs" refl) undo_logs

  drop_status :
      Reaches
        (drop_index taken missing status_index.name "migrations")
        (with_status s)
        (with_migrations s)
  unfolding write_table set_index written
  drop_status =
      Reaches-to (drop_index-ok (with_status s) taken missing status_index.name "migrations" refl)
        (set_index_undo (with_migrations s) status_index.name status_index h.status_index)

  drop_migrations :
      Reaches (drop_table taken missing "migrations") (with_migrations s) (with_connections s)
  unfolding write_table written migrations connections
  drop_migrations =
      Reaches-to (drop_table-ok (with_migrations s) taken missing "migrations" refl)
        (remove_table-write_table (with_connections s) migrations h.migrations free_of_status)

  drop_connections : Reaches (drop_table taken missing "connections") (with_connections s) s
  unfolding write_table written connections
  drop_connections =
      Reaches-to (drop_table-ok (with_connections s) taken missing "connections" refl) (
        remove_table-write_table s connections h.connections
          (λ k. lies_on_missing s h "connections" k h.connections))

  downgrade-ok : Reaches (downgrade (documented taken missing)) (upgraded s) s
  unfolding downgrade documented
  downgrade-ok = Reaches-then drop_created (
      Reaches-then drop_logs
        (Reaches-then drop_status (Reaches-then drop_migrations drop_connections)))

module _ {S T : Type 0} {view : S → T} {op : Operations S} {model : Operations T}
    (lawful : IsLawful view op model) where
  downgrade-Simulates : Simulates view (downgrade op) (downgrade model)
  unfolding downgrade
  downgrade-Simulates =
      Simulates-bind view _ _
        (λ _.
          Simulates-bind view _ _
            (λ _.
              Simulates-bind view _ _
                (λ _. Simulates-bind view _ _ (λ _. lawful.drop_table _) _ _ (lawful.drop_table _))
                _ _ (lawful.drop_index _ _))
            _ _ (lawful.drop_table _))
        _ _ (lawful.drop_index _ _)

-- On a database in which the names that `upgrade` takes are free and each index lies on a table that is
-- there, `upgrade` and then `downgrade` come back, with the tables and the indexes that there were.
pub downgrade-upgrade :
    {S : Type 0} {view : S → Schema} {op : Operations S} (taken missing : String → Exception)
    → IsLawful view op (documented taken missing)
    → (s : S) → IsReady (view s)
    → let done = (upgrade op >> downgrade op) s in (done.0 ≡ ok tt) × (view done.1 ≡ view s)
downgrade-upgrade {view = view} taken missing lawful s h =
    let both =
      Simulates-bind view _ _ (λ _. downgrade-Simulates lawful) _ _ (upgrade-Simulates lawful) in
    let back =
      Reaches-then (upgrade-ok taken missing (view s) h) (downgrade-ok taken missing (view s) h) in
    (both.result s ∙ ap (λ r. r.0) back.at, both.state s ∙ ap (λ r. r.1) back.at)
