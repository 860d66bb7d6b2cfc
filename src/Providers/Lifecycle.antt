-- ===== src/Providers/Lifecycle.antt =====
-- `connect`, `disconnect` and `test_connection` in app/providers, which keep the connection or the
-- pool of the library in a field of the provider.
use migrate_app_backend.Base.{String, Option, none, some, Bool, true, false}
use migrate_app_backend.Base.Effect.{
  Act, pure, caught, Caught, returned, raised, message, modify, ◌>>=◌, ◌>>◌,
}
use migrate_app_backend.Migration.Value.{Python}
use migrate_app_backend.Providers.Sql.{Driver}

-- A provider: `self._conn` or `self._pool`, and the world.
pub record Held (P : Python) (W C : Type 0) : Type 0 where
  pub conn : Option (Driver P W C)
  pub world : W

-- The library: the connection or pool that a provider keeps, the connection that it tests, with its
-- timeout, how they are closed (a pool of aiomysql is closed and waited for), the monotonic clock, and `round((now - start) * 1000, 2)`.
pub record Library (P : Python) (W C : Type 0) : Type 1 where
  pub Time : Type 0
  pub connect : Act W (Driver P W C)
  pub connect_once : Act W (Driver P W C)
  pub close : Driver P W C → Act W (Unit {0})
  pub close_once : Driver P W C → Act W (Unit {0})
  pub monotonic : Act W Time
  pub latency : (start now : Time) → P.Float
  pub zero_latency : P.Float

module _ {P : Python} {W C : Type 0} where
  -- a call that reads the field
  unfoldable pub attached : {A : Type 0} → (Option (Driver P W C) → Act W A) → Act (Held P W C) A
  attached f s = let (r, w) = f s.conn s.world in (r, record { conn = s.conn; world = w })

  unfoldable pub in_world : {A : Type 0} → Act W A → Act (Held P W C) A
  unfolding attached
  in_world m = attached (λ c. m)

  abbrev pub keep : Option (Driver P W C) → Act (Held P W C) (Unit {0})
  keep c = modify (λ s. record { conn = c; world = s.world })

  module _ (library : Library P W C) where
    -- `connect` of the providers that keep a pool
    unfoldable pub connect_pool : Act (Held P W C) (Unit {0})
    unfolding in_world
    connect_pool = do c ← in_world library.connect; keep (some c)

    -- `connect` of the SQLite provider
    unfoldable pub connect_file : Act (Held P W C) (Unit {0})
    unfolding in_world
    connect_file = do
      c ← in_world library.connect
      keep (some c)
      in_world (c.execute "PRAGMA journal_mode=WAL")
      in_world (c.execute "PRAGMA foreign_keys=ON")

    unfoldable pub close_held : Option (Driver P W C) → Act (Held P W C) (Unit {0})
    unfolding in_world
    close_held none = pure tt
    close_held (some c) = do in_world (library.close c); keep none

    -- `disconnect`
    unfoldable pub disconnect : Act (Held P W C) (Unit {0})
    unfolding close_held
    disconnect s = close_held s.conn s

    -- the `try` block of `test_connection`
    unfoldable pub ping : Act W (Unit {0})
    ping = do c ← library.connect_once; c.execute "SELECT 1"; library.close_once c

    unfoldable pub measured : library.Time → Act W (Bool × String × P.Float)
    unfolding ping
    measured start = do
      ping
      now ← library.monotonic
      pure (true, "Connection successful", library.latency start now)

    abbrev pub tested : Caught (Bool × String × P.Float) → Act W (Bool × String × P.Float)
    tested (returned answer) = pure answer
    tested (raised exc) = pure (false, message exc, library.zero_latency)

    -- `test_connection`
    unfoldable pub test_connection : Act W (Bool × String × P.Float)
    unfolding measured
    test_connection = do
      start ← library.monotonic
      outcome ← caught (measured start)
      tested outcome
