-- ===== src/Websockets/Service/Loop.antt =====
-- app/services/websocket_service.py: what a client's connection comes to.
use migrate_app_backend.Base.{
  ℕ, String, Option, none, some, Bool, true, false, not, ◌&&◌, List, [], ◌∷◌, ◌++◌, str_eq, eq_refl,
  is_some, if◌then◌else◌, Result, ok, raise, out_of_fuel, Exception, ◌≡◌, refl, sym, ◌∙◌, arith,
}
use mathlib.Core.List.{append-nil, append_assoc}
use migrate_app_backend.Base.Effect.{when, caught, ◌>>=◌, ◌>>◌}
use mathlib.Core.Path.{subst}
use migrate_app_backend.Providers.Session.{uncaught}
use migrate_app_backend.Websockets.Manager.{
  Connections, subscribers, has_socket, connect, disconnect,
}
use migrate_app_backend.Websockets.Manager.Subscribers.{has_socket-disconnect}
use migrate_app_backend.Websockets.Service.{
  Turn, Socket, on_connections, passed, send_text, listen, handle_migration_ws,
}

-- the exception that ends the loop, if one does: that of the first turn that is broken, or that is a
-- ping whose answer could not be sent
abbrev pub failure : List Turn → Option Exception
failure [] = none
failure (Turn.broken meanwhile exc ∷ turns) = some exc
failure (Turn.received meanwhile t none ∷ turns) = failure turns
failure (Turn.received meanwhile t (some exc) ∷ turns) =
    if str_eq t "ping" then some exc else failure turns

-- one `pong` for each ping before that turn
abbrev pub pongs : List Turn → List String
pongs [] = []
pongs (Turn.broken meanwhile exc ∷ turns) = []
pongs (Turn.received meanwhile t none ∷ turns) =
    let rest = pongs turns in if str_eq t "ping" then "pong" ∷ rest else rest
pongs (Turn.received meanwhile t (some exc) ∷ turns) =
    let rest = pongs turns in if str_eq t "ping" then [] else rest

-- what others did to the connections by then
abbrev pub others : List Turn → Connections → Connections
others [] c = c
others (Turn.broken meanwhile exc ∷ turns) c = meanwhile c
others (Turn.received meanwhile t none ∷ turns) c = others turns (meanwhile c)
others (Turn.received meanwhile t (some exc) ∷ turns) c =
    let rest = others turns (meanwhile c) in if str_eq t "ping" then meanwhile c else rest

abbrev stopped : Option Exception → Result (Unit {0})
stopped none = out_of_fuel
stopped (some exc) = raise exc

abbrev after : List Turn → Socket → Socket
after turns s = record {
  connections = others turns s.connections;
  answers = s.answers ++ pongs turns;
}

-- one turn in which a text is received, by whether it is a ping
module _ (turns : List Turn)
    (ends : (s : Socket) → listen turns s ≡ (stopped (failure turns), after turns s))
    (s : Socket) where
  answered_turn :
      (b : Bool)
      → (when b (send_text "pong" none) >> listen turns) s ≡ (
        stopped (failure turns),
        record {
          connections = others turns s.connections;
          answers = s.answers ++ (if b then "pong" ∷ pongs turns else pongs turns);
        },
      )
  unfolding send_text
  answered_turn true = ends (record s { answers = s.answers ++ "pong" ∷ [] }) ∙ (λ i. (
    stopped (failure turns),
    record {
      connections = others turns s.connections;
      answers = append_assoc s.answers ("pong" ∷ []) (pongs turns) i;
    },
  ))
  answered_turn false = ends s

  unanswered_turn :
      (exc : Exception) (b : Bool)
      → (when b (send_text "pong" (some exc)) >> listen turns) s ≡ (
        stopped (if b then some exc else failure turns),
        record {
          connections = if b then s.connections else others turns s.connections;
          answers = s.answers ++ (if b then [] else pongs turns);
        },
      )
  unfolding send_text
  unanswered_turn exc true = λ i. (raise exc, record s { answers = sym (append-nil s.answers) i })
  unanswered_turn exc false = ends s

-- The loop ends with that exception, or waits for the client.
listen_lem :
    (turns : List Turn) (s : Socket) → listen turns s ≡ (stopped (failure turns), after turns s)
unfolding listen
listen_lem [] s = λ i. (out_of_fuel, record s { answers = sym (append-nil s.answers) i })
listen_lem (Turn.broken f exc ∷ turns) s = λ i.
    (raise exc, record { connections = f s.connections; answers = sym (append-nil s.answers) i })
listen_lem (Turn.received f t none ∷ turns) s =
    answered_turn turns (listen_lem turns) (record s { connections = f s.connections })
      (str_eq t "ping")
listen_lem (Turn.received f t (some exc) ∷ turns) s =
    unanswered_turn turns (listen_lem turns) (record s { connections = f s.connections }) exc
      (str_eq t "ping")

module _ (id : String) (ws : ℕ) (turns : List Turn) (s : Socket) where
  -- What the connection comes to: it returns when an exception ends its loop, and then its socket is
  -- not subscribed; until then the socket is subscribed if others leave it so.
  pub record Served (p : Result (Unit {0}) × Socket) : Type 0 where
    pub result : p.0 ≡ (if is_some (failure turns) then ok tt else out_of_fuel)
    pub answers : p.1.answers ≡ s.answers ++ pongs turns
    pub subscribed : has_socket ws (subscribers id p.1.connections) ≡ (
        not (is_some (failure turns))
        && has_socket ws (subscribers id (others turns (connect id ws s.connections))))

  abbrev joined : Socket
  joined = record s { connections = connect id ws s.connections }

  -- what follows the loop
  abbrev left : Result (Unit {0}) × Socket → Result (Unit {0}) × Socket
  left q =
      ((caught ((caught (λ t. q)) >>= passed)) >>= λ outcome.
      (on_connections (disconnect id ws) >> uncaught outcome))
        joined

  served :
      (o : Option Exception) → failure turns ≡ o → Served (left (stopped o, after turns joined))
  served none e = record { result = rw e refl; answers = refl; subscribed = rw e refl }
  served (some exc) e = record {
    result = rw e refl;
    answers = refl;
    subscribed = rw e (
        ground
          (arith, has_socket-disconnect id id ws ws (others turns joined.connections), eq_refl id));
  }

  -- If the socket is accepted, then: an exception of `receive_text` or of `send_text` ends the loop, and
  -- the call returns with the socket unsubscribed from the channel; as long as there is none the call
  -- waits, with the socket subscribed as others left it; and the client got one pong for each ping before
  -- that exception, and nothing else. If accepting the socket raises, the call raises that exception and
  -- does nothing.
  pub handle_migration_ws-Served :
      (exc : Exception)
      → Served (handle_migration_ws (ok tt) id ws turns s)
        × (handle_migration_ws (raise exc) id ws turns s ≡ (raise exc, s))
  unfolding handle_migration_ws
  handle_migration_ws-Served exc = (
    subst (λ q. Served (left q)) (sym (listen_lem turns joined)) (served (failure turns) refl),
    refl,
  )
