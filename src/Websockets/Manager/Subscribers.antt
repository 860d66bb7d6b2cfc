-- ===== src/Websockets/Manager/Subscribers.antt =====
-- app/websockets/manager.py: who is subscribed to a channel after each operation.
use migrate_app_backend.Base.{
  ℕ, String, Bool, true, false, not, ◌&&◌, ◌||◌, List, [], ◌∷◌, ◌++◌, ◌==◌, if◌then◌else◌, str_eq,
  ◌≡◌, refl, ap, sym, eq_iff, arith,
}
use migrate_app_backend.Base.Dict.{insert, erase, lookup-insert, lookup-erase}
use migrate_app_backend.Websockets.Manager.{
  Connections, subscribers, has_socket, add, discard, connect, keep_unless_empty, disconnect,
  Delivery, note, send_all, discard_all, drop_stale, broadcast,
}

has_socket-append :
    (ws x : ℕ) (s : List ℕ) → has_socket ws (s ++ x ∷ []) ≡ (has_socket ws s || ws == x)
has_socket-append ws x [] = ground arith
has_socket-append ws x (y ∷ s) = ground (arith, has_socket-append ws x s)

has_socket-add : (ws x : ℕ) (s : List ℕ) → has_socket ws (add x s) ≡ (has_socket ws s || ws == x)
unfolding add
has_socket-add ws x s = ground (arith, has_socket-append ws x s)

has_socket-discard :
    (ws x : ℕ) (s : List ℕ) → has_socket ws (discard x s) ≡ (has_socket ws s && not (ws == x))
unfolding discard
has_socket-discard ws x [] = refl
has_socket-discard ws x (y ∷ s) = ground (arith, has_socket-discard ws x s)

has_socket-discard_all :
    (ws : ℕ) (stale s : List ℕ)
    → has_socket ws (discard_all stale s) ≡ (has_socket ws s && not (has_socket ws stale))
unfolding discard_all
has_socket-discard_all ws [] s = ground arith
has_socket-discard_all ws (x ∷ stale) s =
    ground (arith, has_socket-discard_all ws stale (discard x s), has_socket-discard ws x s)

subscribers-insert :
    (j id : String) (s : List ℕ) (c : Connections)
    → subscribers j (insert id s c) ≡ (if str_eq id j then s else subscribers j c)
subscribers-insert j id s c = ground (arith, lookup-insert j id s c)

subscribers-erase :
    (j id : String) (c : Connections)
    → subscribers j (erase id c) ≡ (if str_eq id j then [] else subscribers j c)
subscribers-erase j id c = ground (arith, lookup-erase j id c)

subscribers-keep :
    (j id : String) (s : List ℕ) (c : Connections)
    → subscribers j (keep_unless_empty id s c) ≡ (if str_eq id j then s else subscribers j c)
unfolding keep_unless_empty
subscribers-keep j id [] c = subscribers-erase j id c
subscribers-keep j id (x ∷ s) c = subscribers-insert j id (x ∷ s) c

subscribers_same :
    (j id : String) (c : Connections) → str_eq id j ≡ true → subscribers j c ≡ subscribers id c
subscribers_same j id c h = ap (λ k. subscribers k c) (sym ((eq_iff id j).0 h))

-- `connect` subscribes its socket to its channel, and changes no other subscription of any socket to
-- any channel.
pub has_socket-connect :
    (j id : String) (w ws : ℕ) (c : Connections)
    → has_socket w (subscribers j (connect id ws c))
      ≡ (has_socket w (subscribers j c) || (str_eq id j && w == ws))
unfolding connect
has_socket-connect j id w ws c = ground (
  arith,
  subscribers-insert j id (add ws (subscribers id c)) c,
  has_socket-add w ws (subscribers id c),
  subscribers_same j id c,
)

-- `disconnect` ends the subscription of its socket to its channel, if there is one, and changes no
-- other subscription of any socket to any channel.
pub has_socket-disconnect :
    (j id : String) (w ws : ℕ) (c : Connections)
    → has_socket w (subscribers j (disconnect id ws c))
      ≡ (has_socket w (subscribers j c) && not (str_eq id j && w == ws))
unfolding disconnect
has_socket-disconnect j id w ws c = ground (
  arith,
  subscribers-keep j id (discard ws (subscribers id c)) c,
  has_socket-discard w ws (subscribers id c),
  subscribers_same j id c,
)

abbrev pub is_sent : Delivery → Bool
is_sent Delivery.sent = true
is_sent _ = false

abbrev pub is_broken : Delivery → Bool
is_broken Delivery.broken = true
is_broken _ = false

has_socket-note :
    (w x : ℕ) (d : Delivery) (p : List ℕ × List ℕ)
    → (has_socket w (note d x p).0 ≡ (w == x && is_sent d || has_socket w p.0))
      × (has_socket w (note d x p).1 ≡ (w == x && is_broken d || has_socket w p.1))
has_socket-note w x Delivery.sent p = (ground arith, ground arith)
has_socket-note w x Delivery.unconnected p = (ground arith, ground arith)
has_socket-note w x Delivery.broken p = (ground arith, ground arith)

module _ (deliver : ℕ → Delivery) where
  same_delivery : (w x : ℕ) → (w == x) ≡ true → deliver w ≡ deliver x
  same_delivery w x h = let e : w ≡ x = grind arith in ap deliver e

  has_socket-send_all :
      (w : ℕ) (s : List ℕ)
      → (has_socket w (send_all deliver s).0 ≡ (has_socket w s && is_sent (deliver w)))
        × (has_socket w (send_all deliver s).1 ≡ (has_socket w s && is_broken (deliver w)))
  unfolding send_all
  has_socket-send_all w [] = (refl, refl)
  has_socket-send_all w (x ∷ s) =
      let (g, b) = has_socket-send_all w s in
      let (g', b') = has_socket-note w x (deliver x) (send_all deliver s) in
      let same = same_delivery w x in (ground arith, ground arith)

  pub subscribers-drop_stale :
      (j id : String) (w : ℕ) (stale : List ℕ) (c : Connections)
      → has_socket w (subscribers j (drop_stale id stale c))
        ≡ (has_socket w (subscribers j c) && not (str_eq id j && has_socket w stale))
  unfolding drop_stale
  subscribers-drop_stale j id w [] c = ground arith
  subscribers-drop_stale j id w (x ∷ stale) c = ground (
    arith,
    subscribers-insert j id (discard_all (x ∷ stale) (subscribers id c)) c,
    has_socket-discard_all w (x ∷ stale) (subscribers id c),
    subscribers_same j id c,
  )

-- A broadcast sends to exactly the sockets that are subscribed to its channel and take the message,
-- and afterwards a socket is subscribed to a channel if and only if it was so before and is not a
-- socket of the broadcast's channel that raised.
pub has_socket-broadcast :
    (deliver : ℕ → Delivery) (j id : String) (w : ℕ) (c : Connections)
    → (has_socket w (broadcast deliver id c).0
        ≡ (has_socket w (subscribers id c) && is_sent (deliver w)))
      × (has_socket w (subscribers j (broadcast deliver id c).1)
          ≡ (has_socket w (subscribers j c) && not (str_eq id j && is_broken (deliver w))))
unfolding broadcast
has_socket-broadcast deliver j id w c =
    let (g, b) = has_socket-send_all deliver w (subscribers id c) in
    let d = subscribers-drop_stale deliver j id w (send_all deliver (subscribers id c)).1 c in
    (g, ground (arith, subscribers_same j id c))
