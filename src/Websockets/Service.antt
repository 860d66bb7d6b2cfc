-- ===== src/Websockets/Service.antt =====
-- app/services/websocket_service.py: a client's connection, from its acceptance to its end.
pub mod Loop
use migrate_app_backend.Base.{
  ℕ, String, Option, none, some, List, [], ◌∷◌, ◌++◌, str_eq, Result, ok, raise, out_of_fuel,
  Exception,
}
use migrate_app_backend.Base.Effect.{
  Act, pure, throw, lift, when, caught, Caught, returned, raised, ◌>>=◌, ◌>>◌,
}
use migrate_app_backend.Providers.Session.{uncaught}
use migrate_app_backend.Websockets.Manager.{Connections, connect, disconnect}

-- A turn of the `while True` loop: `receive_text` returns a text, and if an answer is sent, then
-- `send_text` may raise; or `receive_text` raises. `meanwhile` is what other clients and broadcasts
-- do to the connections until then.
pub data Turn : Type 0 where
  received :
      (meanwhile : Connections → Connections) (data_text : String) (unsent : Option Exception)
      → Turn
  broken : (meanwhile : Connections → Connections) (exc : Exception) → Turn

-- the manager's connections, and what was sent to this client
pub record Socket : Type 0 where
  pub connections : Connections
  pub answers : List String

abbrev pub on_connections : (Connections → Connections) → Act Socket (Unit {0})
on_connections f s = (ok tt, record s { connections = f s.connections })

unfoldable pub send_text : String → Option Exception → Act Socket (Unit {0})
send_text text none s = (ok tt, record s { answers = s.answers ++ text ∷ [] })
send_text text (some exc) s = (raise exc, s)

-- the loop, which after the last of these turns waits for the client
unfoldable pub listen : List Turn → Act Socket (Unit {0})
unfolding send_text
listen [] = lift out_of_fuel
listen (Turn.broken meanwhile exc ∷ turns) = do on_connections meanwhile; throw exc
listen (Turn.received meanwhile data_text unsent ∷ turns) = do
  on_connections meanwhile
  when (str_eq data_text "ping") (send_text "pong" unsent)
  listen turns

-- `except Exception: pass`
abbrev pub passed : Caught (Unit {0}) → Act Socket (Unit {0})
passed (returned u) = pure u
passed (raised exc) = pure tt

-- `handle_migration_ws`; `accepted` is what `ws.accept()` comes to. What follows the connection is
-- `try`, `except` and `finally`.
unfoldable pub handle_migration_ws :
    Result (Unit {0}) → String → ℕ → List Turn → Act Socket (Unit {0})
unfolding listen
handle_migration_ws accepted migration_id ws turns = do
  lift accepted
  on_connections (connect migration_id ws)
  outcome ← caught (caught (listen turns) >>= passed)
  on_connections (disconnect migration_id ws)
  uncaught outcome
