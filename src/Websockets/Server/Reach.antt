-- ===== src/Websockets/Server/Reach.antt =====
-- app/websockets/manager.py: whom broadcasts reach, by the events of the server alone.
use migrate_app_backend.Base.{
  ℕ, String, Bool, true, false, not, ◌&&◌, ◌||◌, List, [], ◌∷◌, ◌++◌, ◌==◌, str_eq, ◌≡◌, refl, sym,
  ap, ◌∙◌, arith, eq_refl, All, All-append, if◌then◌else◌,
}
use mathlib.Core.Path.{subst}
use migrate_app_backend.Websockets.Manager.{has_socket, Delivery}
use migrate_app_backend.Websockets.Server.{
  Broadcast, Server, Event, begin, serve, Step, connects, disconnects, begins, serves, ends, Steps,
  done, next,
}
use migrate_app_backend.Websockets.Server.Refines.{
  Subscriptions, subscriptions, happens, Step-happens, happens-cong,
}

-- who was subscribed to a channel when a broadcast on it began
abbrev pub nobody : Subscriptions
nobody id w = false

-- `a` is the table of subscriptions before the event.
abbrev pub invited : Event → Subscriptions → Subscriptions → Subscriptions
invited (Event.begun id) a p j w = p j w || str_eq id j && a j w
invited (Event.connected id ws) a p j w = p j w
invited (Event.disconnected id ws) a p j w = p j w
invited (Event.served id ws d) a p j w = p j w
invited (Event.ended id stale) a p j w = p j w

abbrev all_invited : Subscriptions → String → List ℕ → Bool
all_invited p id [] = true
all_invited p id (w ∷ ws) = let rest = all_invited p id ws in p id w && rest

-- A send, and the removal of stale sockets, is for those who were.
abbrev pub is_for : Event → Subscriptions → Bool
is_for (Event.served id ws d) p = p id ws
is_for (Event.ended id stale) p = all_invited p id stale
is_for _ p = true

abbrev pub reaches : List Event → Subscriptions → Subscriptions → Bool
reaches [] a p = true
reaches (e ∷ es) a p = let rest = reaches es (happens e a) (invited e a p) in is_for e p && rest

-- the sockets that a broadcast served or is still to serve
abbrev concerns : ℕ → Broadcast → Bool
concerns w b = has_socket w b.left || has_socket w b.got || has_socket w b.stale

record Within (p : Subscriptions) (b : Broadcast) : Type 0 where
  pub at : (w : ℕ) → (not (concerns w b) || p b.channel w) ≡ true

begin-Within :
    (s : Server) (id : String) (a p : Subscriptions)
    → ((j : String) (w : ℕ) → a j w ≡ subscriptions s j w)
    → Within (invited (Event.begun id) a p) (begin id s.connections)
unfolding begin
begin-Within s id a p h = record { at = λ w. let same = h id w in ground (arith, eq_refl id) }

serve-Within :
    (p : Subscriptions) (d : Delivery) (ws : ℕ) (rest : List ℕ) (b : Broadcast)
    → b.left ≡ ws ∷ rest
    → Within p b
    → Within p (serve d ws rest b)
unfolding serve
serve-Within p d ws rest b e h = record { at = λ w. go d w (h.at w) }
  where
    next_of : (w : ℕ) → has_socket w b.left ≡ (if w == ws then true else has_socket w rest)
    next_of w = ap (λ l. has_socket w l) e

    go :
        (d : Delivery) (w : ℕ)
        → (not (concerns w b) || p b.channel w) ≡ true
        → (not (concerns w (serve d ws rest b)) || p b.channel w) ≡ true
    go Delivery.sent w k = let l = next_of w in ground arith
    go Delivery.unconnected w k = let l = next_of w in ground arith
    go Delivery.broken w k = let l = next_of w in ground arith

-- the next socket, and the stale ones, are among them
next_invited :
    (p : Subscriptions) (ws : ℕ) (rest : List ℕ) (b : Broadcast)
    → b.left ≡ ws ∷ rest
    → Within p b
    → p b.channel ws ≡ true
next_invited p ws rest b e h =
    let k = h.at ws in let l = ap (λ x. has_socket ws x) e in ground arith

all_invited-stale :
    (p : Subscriptions) (id : String) (stale : List ℕ)
    → ((w : ℕ) → (not (has_socket w stale) || p id w) ≡ true)
    → all_invited p id stale ≡ true
all_invited-stale p id [] h = refl
all_invited-stale p id (x ∷ xs) h =
    let k = h x in
    let rest = all_invited-stale p id xs (λ w. let l = h w in ground arith) in ground arith

stale_invited :
    (p : Subscriptions) (b : Broadcast) → Within p b → all_invited p b.channel b.stale ≡ true
stale_invited p b h = all_invited-stale p b.channel b.stale (λ w. let k = h.at w in ground arith)

more-Within :
    (id : String) (a p : Subscriptions) (bs : List Broadcast)
    → All (Within p) bs
    → All (Within (invited (Event.begun id) a p)) bs
more-Within id a p [] h = tt
more-Within id a p (b ∷ bs) h =
    (record { at = λ w. let k = h.0.at w in ground arith }, more-Within id a p bs h.1)

-- the broadcasts around one that is replaced, or taken away
around :
    (p : Subscriptions) (before after : List Broadcast) (b : Broadcast)
    → All (Within p) (before ++ b ∷ after)
    → All (Within p) before × Within p b × All (Within p) after
around p [] after b h = (tt, h.0, h.1)
around p (x ∷ before) after b h = let (q, r, t) = around p before after b h.1 in ((h.0, q), r, t)

Step-Within :
    {s t : Server} {e : Event} (a p : Subscriptions)
    → ((j : String) (w : ℕ) → a j w ≡ subscriptions s j w)
    → Step s e t
    → All (Within p) s.under_way
    → (is_for e p ≡ true) × All (Within (invited e a p)) t.under_way
Step-Within a p same (connects s id ws) h = (refl, h)
Step-Within a p same (disconnects s id ws) h = (refl, h)
Step-Within a p same (begins s id) h = (
  refl,
  All-append (Within (invited (Event.begun id) a p)) s.under_way (begin id s.connections ∷ [])
      (more-Within id a p s.under_way h) (begin-Within s id a p same, tt),
)
Step-Within a p same (serves c before after b ws rest d e) h =
    let (q, r, t) = around p before after b h in
    (
      next_invited p ws rest b e r,
      All-append (Within p) before (serve d ws rest b ∷ after) q
          (serve-Within p d ws rest b e r, t),
    )
Step-Within a p same (ends c before after b e) h =
    let (q, r, t) = around p before after b h in
    (stale_invited p b r, All-append (Within p) before after q t)

Steps-Within :
    {s t : Server} {es : List Event} (a p : Subscriptions)
    → ((j : String) (w : ℕ) → a j w ≡ subscriptions s j w)
    → Steps s es t
    → All (Within p) s.under_way
    → reaches es a p ≡ true
Steps-Within a p same (done s) h = refl
Steps-Within a p same (next {s = s} {e = e} step rest) h =
    let (one, within) = Step-Within a p same step h in
    let more =
      Steps-Within (happens e a) (invited e a p)
        (λ j w. happens-cong e a (subscriptions s) same j w ∙ sym (Step-happens step j w)) rest
        within in
    rw one more

-- Whatever interleaves from a server with no broadcast under way: each send of a broadcast, and each
-- removal of a stale socket when one ends, is for a socket that was subscribed to that channel, on the table
-- that the events make (`happens`), when a broadcast on the channel began earlier; a client that connects
-- only later gets nothing.
pub Steps-reaches :
    {s t : Server} {es : List Event}
    → Steps s es t
    → s.under_way ≡ []
    → reaches es (subscriptions s) nobody ≡ true
Steps-reaches {s = s} steps e =
    Steps-Within (subscriptions s) nobody (λ j w. refl) steps
      (subst (λ bs. All (Within nobody) bs) (sym e) tt)
