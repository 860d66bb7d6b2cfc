-- ===== src/Websockets/Server.antt =====
-- app/websockets/manager.py: calls of the manager that interleave. Each access under the lock is one
-- step, and so is each send of a broadcast that is under way.
pub mod Refines
pub mod Reach
use migrate_app_backend.Base.{ℕ, String, Bool, List, [], ◌∷◌, ◌++◌, ◌≡◌}
use migrate_app_backend.Websockets.Manager.{
  Connections, subscribers, connect, disconnect, Delivery, note, drop_stale,
}

-- a broadcast under way: its channel, the sockets that it read and that are still to be served, those
-- that got the message, and `stale`
pub record Broadcast : Type 0 where
  pub channel : String
  pub left : List ℕ
  pub got : List ℕ
  pub stale : List ℕ

pub record Server : Type 0 where
  pub connections : Connections
  pub under_way : List Broadcast

pub data Event : Type 0 where
  connected disconnected : (id : String) (ws : ℕ) → Event
  begun : (id : String) → Event
  served : (id : String) (ws : ℕ) (d : Delivery) → Event
  ended : (id : String) (stale : List ℕ) → Event

-- the first part of `broadcast`
unfoldable pub begin : String → Connections → Broadcast
begin id c = record { channel = id; left = subscribers id c; got = []; stale = [] }

-- one turn of its loop
unfoldable pub serve : Delivery → ℕ → List ℕ → Broadcast → Broadcast
serve d ws rest b =
    let (got, stale) = note d ws (b.got, b.stale) in
    record b { left = rest; got = got; stale = stale }

-- one step of the server
pub data Step : Server → Event → Server → Type 0 where
  connects :
      (s : Server) (id : String) (ws : ℕ)
      → Step s (Event.connected id ws) (record s { connections = connect id ws s.connections })
  disconnects :
      (s : Server) (id : String) (ws : ℕ)
      → Step s
          (Event.disconnected id ws)
          (record s { connections = disconnect id ws s.connections })
  begins :
      (s : Server) (id : String)
      → Step s
          (Event.begun id)
          (record s { under_way = s.under_way ++ begin id s.connections ∷ [] })
  serves :
      (c : Connections) (before after : List Broadcast) (b : Broadcast) (ws : ℕ) (rest : List ℕ)
      (d : Delivery)
      → b.left ≡ ws ∷ rest
      → Step
          (record { connections = c; under_way = before ++ b ∷ after })
          (Event.served b.channel ws d)
          (record { connections = c; under_way = before ++ serve d ws rest b ∷ after })
  ends :
      (c : Connections) (before after : List Broadcast) (b : Broadcast)
      → b.left ≡ []
      → Step
          (record { connections = c; under_way = before ++ b ∷ after })
          (Event.ended b.channel b.stale)
          (record { connections = drop_stale b.channel b.stale c; under_way = before ++ after })

pub data Steps : Server → List Event → Server → Type 0 where
  done : (s : Server) → Steps s [] s
  next :
      {s t u : Server} {e : Event} {es : List Event}
      → Step s e t
      → Steps t es u
      → Steps s (e ∷ es) u
