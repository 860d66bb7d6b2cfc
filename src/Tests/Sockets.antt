-- ===== src/Tests/Sockets.antt =====
-- app/websockets/manager.py and app/services/websocket_service.py: clients that come and go while a
-- broadcast is under way.
use migrate_app_backend.Base.{ℕ, true, List, [], ◌∷◌, ◌≡◌, refl, All}
use migrate_app_backend.Base.Dict.{lookup}
use migrate_app_backend.Websockets.Manager.{Connections, Delivery, connect, drop_stale}
use migrate_app_backend.Websockets.Server.{
  Broadcast, Server, Event, begin, serve, connects, begins, serves, ends, Steps, done, next,
}
use migrate_app_backend.Websockets.Server.Refines.{
  subscriptions, happen, spares, Steps-happen, Steps-stays,
}
use migrate_app_backend.Websockets.Server.Reach.{nobody, reaches, Steps-reaches}
use migrate_app_backend.Websockets.Service.{Turn, Socket, handle_migration_ws}
use migrate_app_backend.Websockets.Service.Loop.{Served, handle_migration_ws-Served}
use migrate_app_backend.Base.{none, some, ok, raise, Exception}

abbrev one_channel : Connections
one_channel = ("m1", 1 ∷ 3 ∷ []) ∷ []

abbrev first : Server
first = record { connections = one_channel; under_way = [] }

-- a broadcast begins, another client connects, one send raises and the other succeeds, and the
-- broadcast ends
abbrev events : List Event
events =
    Event.begun "m1"
    ∷ Event.connected "m1" 2
    ∷ Event.served "m1" 1 Delivery.broken
    ∷ Event.served "m1" 3 Delivery.sent
    ∷ Event.ended "m1" (1 ∷ [])
    ∷ []

abbrev with_client : Connections
with_client = connect "m1" 2 one_channel

abbrev under_way : (left got stale : List ℕ) → Broadcast
under_way left got stale = record { channel = "m1"; left = left; got = got; stale = stale }

abbrev last : Server
last = record { connections = drop_stale "m1" (1 ∷ []) with_client; under_way = [] }

trace : Steps first events last
unfolding begin serve lookup
trace = next (begins first "m1") (
    next (connects (record first { under_way = under_way (1 ∷ 3 ∷ []) [] [] ∷ [] }) "m1" 2) (
      next (serves with_client [] [] (under_way (1 ∷ 3 ∷ []) [] []) 1 (3 ∷ []) Delivery.broken refl)
        (next (serves with_client [] [] (under_way (3 ∷ []) [] (1 ∷ [])) 3 [] Delivery.sent refl)
          (next (ends with_client [] [] (under_way [] (3 ∷ []) (1 ∷ [])) refl) (done last)))))

Steps-happen_example : subscriptions last "m1" 2 ≡ happen events (subscriptions first) "m1" 2
Steps-happen_example = Steps-happen trace "m1" 2

spared : All (λ e. spares "m1" 3 e ≡ true) events
spared = (refl, (refl, (refl, (refl, (refl, tt)))))

there : subscriptions first "m1" 3 ≡ true
unfolding lookup
there = refl

Steps-stays_example : subscriptions last "m1" 3 ≡ true
Steps-stays_example = Steps-stays trace "m1" 3 spared there

Steps-reaches_example : reaches events (subscriptions first) nobody ≡ true
Steps-reaches_example = Steps-reaches trace refl

-- a ping that is answered while another client connects, another text, and a ping that cannot be
-- answered
abbrev turns : List Turn
turns =
    Turn.received (λ c. connect "m1" 9 c) "ping" none
    ∷ Turn.received (λ c. c) "hello" none
    ∷ Turn.received (λ c. c) "ping" (some (Exception.other_error "closed"))
    ∷ Turn.received (λ c. c) "ping" none
    ∷ []

abbrev socket : Socket
socket = record { connections = one_channel; answers = [] }

handle_migration_ws-Served_example :
    Served "m1" 7 turns socket (handle_migration_ws (ok tt) "m1" 7 turns socket)
    × (handle_migration_ws (raise (Exception.other_error "refused")) "m1" 7 turns socket
        ≡ (raise (Exception.other_error "refused"), socket))
handle_migration_ws-Served_example =
    handle_migration_ws-Served "m1" 7 turns socket (Exception.other_error "refused")
