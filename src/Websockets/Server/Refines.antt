-- ===== src/Websockets/Server/Refines.antt =====
-- app/websockets/manager.py: the interleaved server against a table of subscriptions, and whom its
-- broadcasts may reach.
use migrate_app_backend.Base.{
  ℕ, String, Bool, true, not, ◌&&◌, ◌||◌, List, [], ◌∷◌, ◌==◌, str_eq, ◌≡◌, refl, ◌∙◌, arith, All,
}
use migrate_app_backend.Websockets.Manager.{subscribers, has_socket, Delivery}
use migrate_app_backend.Websockets.Manager.Subscribers.{
  has_socket-connect, has_socket-disconnect, subscribers-drop_stale,
}
use migrate_app_backend.Websockets.Server.{
  Server, Event, Step, connects, disconnects, begins, serves, ends, Steps, done, next,
}

-- The abstract view: which socket is subscribed to which channel.
abbrev pub Subscriptions : Type 0
Subscriptions = String → ℕ → Bool

abbrev pub subscriptions : Server → Subscriptions
subscriptions s j w = has_socket w (subscribers j s.connections)

-- what an event does to a table of subscriptions
abbrev pub happens : Event → Subscriptions → Subscriptions
happens (Event.connected id ws) a j w = a j w || str_eq id j && w == ws
happens (Event.disconnected id ws) a j w = a j w && not (str_eq id j && w == ws)
happens (Event.begun id) a j w = a j w
happens (Event.served id ws d) a j w = a j w
happens (Event.ended id stale) a j w = a j w && not (str_eq id j && has_socket w stale)

abbrev pub happen : List Event → Subscriptions → Subscriptions
happen [] a = a
happen (e ∷ es) a = happen es (happens e a)

pub Step-happens :
    {s t : Server} {e : Event}
    → Step s e t
    → (j : String) (w : ℕ) → subscriptions t j w ≡ happens e (subscriptions s) j w
Step-happens (connects s id ws) j w = has_socket-connect j id w ws s.connections
Step-happens (disconnects s id ws) j w = has_socket-disconnect j id w ws s.connections
Step-happens (begins s id) j w = refl
Step-happens (serves c before after b ws rest d e) j w = refl
Step-happens (ends c before after b e) j w =
    subscribers-drop_stale (λ n. Delivery.sent) j b.channel w b.stale c

pub happens-cong :
    (e : Event) (a b : Subscriptions)
    → ((j : String) (w : ℕ) → a j w ≡ b j w)
    → (j : String) (w : ℕ) → happens e a j w ≡ happens e b j w
happens-cong (Event.connected id ws) a b h j w = rw (h j w) refl
happens-cong (Event.disconnected id ws) a b h j w = rw (h j w) refl
happens-cong (Event.begun id) a b h j w = h j w
happens-cong (Event.served id ws d) a b h j w = h j w
happens-cong (Event.ended id stale) a b h j w = rw (h j w) refl

happen-cong :
    (es : List Event) (a b : Subscriptions)
    → ((j : String) (w : ℕ) → a j w ≡ b j w)
    → (j : String) (w : ℕ) → happen es a j w ≡ happen es b j w
happen-cong [] a b h = h
happen-cong (e ∷ es) a b h = happen-cong es (happens e a) (happens e b) (happens-cong e a b h)

-- However connects, disconnects and broadcasts interleave, the server's subscriptions are those of
-- the table on which the same events happened one after the other: a connect adds its own, a
-- disconnect removes its own, and the end of a broadcast removes its stale sockets from its own
-- channel; the sends change nothing.
pub Steps-happen :
    {s t : Server} {es : List Event}
    → Steps s es t
    → (j : String) (w : ℕ) → subscriptions t j w ≡ happen es (subscriptions s) j w
Steps-happen (done s) j w = refl
Steps-happen (next {s = s} {t = t} {e = e} {es = es} step rest) j w =
    Steps-happen rest j w
    ∙ happen-cong es (subscriptions t) (happens e (subscriptions s)) (Step-happens step) j w

-- no event of the list ends the subscription of `w` to `id`
abbrev pub spares : String → ℕ → Event → Bool
spares id w (Event.disconnected j ws) = not (str_eq j id && w == ws)
spares id w (Event.ended j stale) = not (str_eq j id && has_socket w stale)
spares id w _ = true

happens-spares :
    (e : Event) (a : Subscriptions) (id : String) (w : ℕ)
    → spares id w e ≡ true
    → a id w ≡ true
    → happens e a id w ≡ true
happens-spares (Event.connected j ws) a id w p h = ground arith
happens-spares (Event.disconnected j ws) a id w p h = ground arith
happens-spares (Event.begun j) a id w p h = h
happens-spares (Event.served j ws d) a id w p h = h
happens-spares (Event.ended j stale) a id w p h = ground arith

happen-spares :
    (es : List Event) (a : Subscriptions) (id : String) (w : ℕ)
    → All (λ e. spares id w e ≡ true) es
    → a id w ≡ true
    → happen es a id w ≡ true
happen-spares [] a id w p h = h
happen-spares (e ∷ es) a id w p h =
    happen-spares es (happens e a) id w p.1 (happens-spares e a id w p.0 h)

-- A socket that is subscribed to a channel stays so, whatever other calls interleave, until it is
-- disconnected from that very channel or is stale for a broadcast on it that ends.
pub Steps-stays :
    {s t : Server} {es : List Event}
    → Steps s es t
    → (id : String) (w : ℕ) → All (λ e. spares id w e ≡ true) es
    → subscriptions s id w ≡ true
    → subscriptions t id w ≡ true
Steps-stays {s = s} {es = es} steps id w p h =
    Steps-happen steps id w ∙ happen-spares es (subscriptions s) id w p h
