-- ===== src/Providers/Closes.antt =====
-- What `test_connection` answers, and a provider that was disconnected.
use mathlib.Core.Path.{subst}
use migrate_app_backend.Base.{
  ◌≡◌, refl, ap, ◌∙◌, ◌≢◌, String, Option, none, some, Bool, true, Exception, Result, ok, raise,
  out_of_fuel, is_ok, ok_of_is_ok, sym,
}
use migrate_app_backend.Base.Effect.{Act, pure, caught, message, continue, bind-eq-ok, ◌>>=◌}
use migrate_app_backend.Base.Calls.{Returns, Terminates}
use migrate_app_backend.Migration.Value.{Python}
use migrate_app_backend.Providers.Sql.{Driver, connected}
use migrate_app_backend.Providers.Lifecycle.{
  Held, Library, attached, in_world, close_held, disconnect, keep, ping, measured, tested,
  test_connection,
}

abbrev pub text_of : Result (Unit {0}) → String
text_of (ok u) = "Connection successful"
text_of (raise exc) = message exc
text_of out_of_fuel = ""

module _ {P : Python} {W C : Type 0} (library : Library P W C) where
  -- the call of `test_connection` at a state, once its clock has been read
  abbrev pub pinged : W → Result (Unit {0})
  pinged s = (ping library (library.monotonic s).1).0

  module _ (start : library.Time) (clock : Returns library.monotonic) where
    abbrev timed : Unit {0} → Act W (Bool × String × P.Float)
    timed u = do
      now ← library.monotonic
      pure (true, "Connection successful", library.latency start now)

    answered :
        (r : Result (Unit {0})) (w : W)
        → r ≢ out_of_fuel
        → (lat : P.Float) × (((caught (λ s. continue r timed w) >>= tested library) w).0
            ≡ ok (is_ok r, text_of r, lat))
    answered (ok tt) w h =
        let (now, e) = ok_of_is_ok (library.monotonic w).0 (clock.at w) in
        (library.latency start now, rw e refl)
    answered (raise exc) w h = (library.zero_latency, refl)
    answered out_of_fuel w h = absurd (h refl)

  -- Where the clock can be read, and connecting, querying and closing come back, with values or
  -- exceptions, `test_connection` does not raise. It answers True and "Connection successful" if they
  -- all returned, and otherwise False with the text of the exception.
  pub test_connection-Answers :
      (s : W)
      → Returns library.monotonic
      → Terminates (ping library)
      → (lat : P.Float) × ((test_connection library s).0
          ≡ ok (is_ok (pinged s), text_of (pinged s), lat))
  unfolding test_connection measured
  test_connection-Answers s clock h =
      let t = (library.monotonic s).1 in
      let (start, e) = ok_of_is_ok (library.monotonic s).0 (clock.at s) in
      rw e (answered start clock (ping library t).0 (ping library t).1 (h.at t))

  closed_conn :
      (c : Option (Driver P W C)) (s t : Held P W C)
      → s.conn ≡ c
      → close_held library c s ≡ (ok tt, t)
      → t.conn ≡ none
  unfolding close_held
  closed_conn none s t e h = ap (λ r. r.1.conn) (sym h) ∙ e
  closed_conn (some c) s t e h =
      let (u, m, first, second) =
        bind-eq-ok (in_world (library.close c)) (λ _. keep none) s t tt h in
      ap (λ r. r.1.conn) (sym second)

  -- After a `disconnect` that returned, every call of the provider that asks for its connection raises
  -- "Not connected" and does nothing, and so does a further `disconnect`, which returns.
  pub disconnect_closes :
      {A : Type 0} (s t : Held P W C) (f : Driver P W C → Act W A)
      → disconnect library s ≡ (ok tt, t)
      → (attached (λ conn. connected conn >>= f) t
          ≡ (raise (Exception.other_error "Not connected"), t))
        × (disconnect library t ≡ (ok tt, t))
  unfolding disconnect attached close_held
  disconnect_closes s t f h =
      let e = sym (closed_conn s.conn s t refl h) in
      let at : Option (Driver P W C) → Held P W C = λ c. record { conn = c; world = t.world } in
      (
        subst
            (λ c.
              attached (λ conn. connected conn >>= f) (at c)
              ≡ (raise (Exception.other_error "Not connected"), at c))
            e refl,
        subst (λ c. disconnect library (at c) ≡ (ok tt, at c)) e refl,
      )
