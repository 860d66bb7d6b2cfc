-- ===== src/Websockets/Manager.antt =====
-- app/websockets/manager.py. A socket is a number. `_connections` is the state; the lock makes each
-- access one step, and a broadcast is two: it reads its channel, and drops what it could not reach.
pub mod Subscribers
use migrate_app_backend.Base.{
  ℕ, String, Option, none, some, Bool, true, false, not, List, [], ◌∷◌, ◌++◌, ◌==◌, if◌then◌else◌,
}
use migrate_app_backend.Base.Dict.{Dict, lookup, insert, erase}

-- a set of sockets, in the order of their addition
abbrev pub Connections : Type 0
Connections = Dict (List ℕ)

abbrev pub or_empty : Option (List ℕ) → List ℕ
or_empty none = []
or_empty (some s) = s

-- `self._connections[migration_id]`, of a `defaultdict(set)`, and `.get(migration_id, set())`
abbrev pub subscribers : String → Connections → List ℕ
subscribers id c = or_empty (lookup id c)

abbrev pub has_socket : ℕ → List ℕ → Bool
has_socket ws [] = false
has_socket ws (x ∷ xs) = if ws == x then true else has_socket ws xs

-- `set.add`
unfoldable pub add : ℕ → List ℕ → List ℕ
add ws s = if has_socket ws s then s else s ++ ws ∷ []

-- `set.discard`
unfoldable pub discard : ℕ → List ℕ → List ℕ
discard ws [] = []
discard ws (x ∷ xs) = let rest = discard ws xs in if ws == x then rest else x ∷ rest

-- `connect`, once the socket was accepted
unfoldable pub connect : String → ℕ → Connections → Connections
unfolding add
connect id ws c = insert id (add ws (subscribers id c)) c

keep_unless_empty : String → List ℕ → Connections → Connections
keep_unless_empty id [] c = erase id c
keep_unless_empty id (x ∷ xs) c = insert id (x ∷ xs) c

-- `disconnect`
unfoldable pub disconnect : String → ℕ → Connections → Connections
unfolding discard keep_unless_empty
disconnect id ws c = keep_unless_empty id (discard ws (subscribers id c)) c

-- What comes of sending to a socket: it is sent, or the socket is not connected, or it raises.
pub data Delivery : Type 0 where
  sent unconnected broken : Delivery

-- one turn of the loop of `broadcast`, before the turns that `p` comes from
abbrev pub note : Delivery → ℕ → List ℕ × List ℕ → List ℕ × List ℕ
note Delivery.sent ws p = (ws ∷ p.0, p.1)
note Delivery.unconnected ws p = p
note Delivery.broken ws p = (p.0, ws ∷ p.1)

module _ (deliver : ℕ → Delivery) where
  -- the loop of `broadcast`: the sockets that got the message, and the stale ones
  unfoldable pub send_all : List ℕ → List ℕ × List ℕ
  send_all [] = ([], [])
  send_all (ws ∷ rest) = note (deliver ws) ws (send_all rest)

unfoldable pub discard_all : List ℕ → List ℕ → List ℕ
unfolding discard
discard_all [] s = s
discard_all (ws ∷ stale) s = discard_all stale (discard ws s)

-- the end of `broadcast`
unfoldable pub drop_stale : String → List ℕ → Connections → Connections
unfolding discard_all
drop_stale id [] c = c
drop_stale id (ws ∷ stale) c = insert id (discard_all (ws ∷ stale) (subscribers id c)) c

-- `broadcast` with nothing in between: who got the message, and the connections after it
unfoldable pub broadcast : (ℕ → Delivery) → String → Connections → List ℕ × Connections
unfolding send_all drop_stale
broadcast deliver id c =
    let (got, stale) = send_all deliver (subscribers id c) in (got, drop_stale id stale c)
