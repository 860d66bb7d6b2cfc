-- ===== src/Providers/Classes/Closed.antt =====
-- `async with` of a provider leaves it without a connection.
use mathlib.Core.Bool.{true≢false}
use migrate_app_backend.Base.{
  ◌≡◌, refl, sym, ap, ◌∙◌, Option, none, some, true, Result, ok, raise, out_of_fuel, is_ok,
}
use migrate_app_backend.Base.Effect.{caught_result, Act, caught, Caught, returned, raised, continue}
use migrate_app_backend.Base.Calls.{Returns, Terminates, Returns-caught, bind_elim}
use migrate_app_backend.Migration.Value.{Python}
use migrate_app_backend.Providers.Session.{opened, uncaught}
use migrate_app_backend.Providers.Sql.{Driver}
use migrate_app_backend.Providers.Lifecycle
use migrate_app_backend.Providers.Lifecycle.{Held, Library, in_world, keep, close_held}
use migrate_app_backend.Providers.Sqlite
use migrate_app_backend.Providers.Sqlite.{ColumnInfo}
use migrate_app_backend.Providers.Classes.{sqlite_provider}

uncaught-state : {S A : Type 0} (c : Caught A) (s : S) → (uncaught c s).1 ≡ s
uncaught-state (returned a) s = refl
uncaught-state (raised e) s = refl

uncaught-result :
    {S A : Type 0} (r : Result A) (c : Caught A) (s : S)
    → caught_result r ≡ ok c
    → (uncaught c s).0 ≡ r
uncaught-result (ok a) (returned b) s e = cc
uncaught-result (ok a) (raised y) s e = cc
uncaught-result (raise x) (returned b) s e = cc
uncaught-result (raise x) (raised y) s e = cc
uncaught-result out_of_fuel c s e = cc

module _ {P : Python} {W C : Type 0} (library : Library P W C)
    (closes : (c : Driver P W C) → Returns (library.close c)) where
  close_held-conn :
      (o : Option (Driver P W C)) (s : Held P W C)
      → s.conn ≡ o
      → (is_ok (close_held library o s).0 ≡ true) × ((close_held library o s).1.conn ≡ none)
  unfolding close_held in_world
  close_held-conn none s e = (refl, e)
  close_held-conn (some c) s e = after (library.close c s.world).0 ((closes c).at s.world)
    where
      after :
          (r : Result (Unit {0}))
          → is_ok r ≡ true
          → let done =
              continue {S = Held P W C} r
                (λ _. keep none)
                (record { conn = s.conn; world = (library.close c s.world).1 }) in
            (is_ok done.0 ≡ true) × (done.1.conn ≡ none)
      after (ok u) h = (refl, refl)
      after (raise x) h = cc
      after out_of_fuel h = cc

  disconnect-conn :
      (s : Held P W C)
      → (is_ok (Lifecycle.disconnect library s).0 ≡ true)
        × ((Lifecycle.disconnect library s).1.conn ≡ none)
  unfolding Lifecycle.disconnect
  disconnect-conn s = close_held-conn s.conn s refl

-- If closing a connection does not raise, then `async with` of a SQLite provider that can be connected
-- returns or raises as its block does, and leaves the provider without a connection.
pub opened_closed :
    {P : Python} {W A : Type 0} (library : Library P W ColumnInfo) (m : Act (Held P W ColumnInfo) A)
    (s : Held P W ColumnInfo)
    → ((c : Driver P W ColumnInfo) → Returns (library.close c))
    → Terminates m
    → is_ok (Sqlite.connect library s).0 ≡ true
    → let done = opened (sqlite_provider library) m s in
      (done.0 ≡ (m (Sqlite.connect library s).1).0) × (done.1.conn ≡ none)
unfolding opened sqlite_provider Sqlite.disconnect
opened_closed {P = P} {W = W} {A = A} library m s closes ends h =
    bind_elim Closed (Sqlite.connect library) _ s
      (λ u e.
        bind_elim Closed (caught m) _ t
          (λ c e'.
            bind_elim Closed (Lifecycle.disconnect library) (λ _. uncaught c) (m t).1
              (λ v e''. (
                uncaught-result (m t).0 c _ e',
                ap (λ (x : Held P W ColumnInfo). x.conn) (uncaught-state c _)
                    ∙ (disconnect-conn library closes (m t).1).1,
              ))
              (λ r n b. absurd (true≢false (sym (disconnect-conn library closes (m t).1).0 ∙ b))))
          (λ r n b. absurd (true≢false (sym ((Returns-caught m ends).at t) ∙ b))))
      (λ r n b. absurd (true≢false (sym h ∙ b)))
  where
    t : Held P W ColumnInfo
    t = (Sqlite.connect library s).1

    Closed : Result A × Held P W ColumnInfo → Type 0
    Closed p = (p.0 ≡ (m t).0) × (p.1.conn ≡ none)
