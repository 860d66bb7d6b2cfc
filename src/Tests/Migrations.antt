-- ===== src/Tests/Migrations.antt =====
-- app/services/migration_service.py, app/workers/migration_tasks.py and app/websockets/manager.py on
-- concrete rows and sockets.
use migrate_app_backend.Base.{
  ◌≡◌, ℕ, String, List, [], ◌∷◌, some, not, if◌then◌else◌, ◌&&◌, ◌==◌, Result, ok, str_eq, arith,
}
use migrate_app_backend.Base.Dict.{lookup}
use migrate_app_backend.Core.Constants.{MigrationStatus}
use migrate_app_backend.Models.{Migration, Database}
use migrate_app_backend.Workers.MigrationTasks.Lifecycle.{
  Event, IsCoherent, apply_all, apply_all-IsCoherent,
}
use migrate_app_backend.Websockets.Manager.{
  Connections, Delivery, subscribers, has_socket, broadcast,
}
use migrate_app_backend.Websockets.Manager.Subscribers.{is_sent, is_broken, has_socket-broadcast}
use migrate_app_backend.Tests.Fixtures.{pending_migration, database}

abbrev started_database : Database
started_database = record {
  migrations =
      (
        "m1",
        record pending_migration {
          celery_task_id = some "t1";
          status = MigrationStatus.running;
          started_at = some 10;
        },
      )
      ∷ [];
  logs = [];
  queued = ("t1", "m1") ∷ [];
  revoked = [];
}

database-IsCoherent : IsCoherent database
unfolding lookup
database-IsCoherent id m e = ground arith

abbrev load_nothing : Migration → Result String
load_nothing m = ok "config"

abbrev life : List Event
life =
    Event.to_start "m1" (ok "t1") (ok tt) 10
    ∷ Event.to_begin "m1" 11
    ∷ Event.to_progress "m1" "users" 2
    ∷ Event.to_fail "m1" "lost" 12
    ∷ []

apply_all-IsCoherent_example : IsCoherent (apply_all load_nothing life database)
apply_all-IsCoherent_example = apply_all-IsCoherent load_nothing life database database-IsCoherent

abbrev sockets : Connections
sockets = ("m1", 1 ∷ 2 ∷ 3 ∷ []) ∷ ("m2", 2 ∷ []) ∷ []

-- socket 2 raises, socket 3 is closed
abbrev deliver : ℕ → Delivery
deliver n =
    if n == 2 then Delivery.broken else if n == 3 then Delivery.unconnected else Delivery.sent

has_socket-broadcast_example :
    (has_socket 2 (broadcast deliver "m1" sockets).0
      ≡ (has_socket 2 (subscribers "m1" sockets) && is_sent (deliver 2)))
    × (has_socket 2 (subscribers "m1" (broadcast deliver "m1" sockets).1) ≡ (
        has_socket 2 (subscribers "m1" sockets) && not (str_eq "m1" "m1" && is_broken (deliver 2))))
has_socket-broadcast_example = has_socket-broadcast deliver "m1" "m1" 2 sockets
