-- ===== src/Workers/System/Sessions.antt =====
-- What a session of the application's database did that returned.
use migrate_app_backend.Base.{is_ok, false, ok, ◌≡◌, refl}
use migrate_app_backend.Base.Effect.{Act}
use migrate_app_backend.Base.Calls.{bind_elim}
use migrate_app_backend.Migration.Value.{Python}
use migrate_app_backend.Models.{Database}
use migrate_app_backend.Workers.System.{System, Runtime, Session, on_world, on_db, in_session}

module _ {P : Python} {W A : Type 0} (runtime : Runtime P W) (k : Session)
    (m : Act Database A) where
  -- Where it does not return, it has written nothing, if its calls then write nothing.
  pub in_session_refused :
      (s : System W)
      → (is_ok (m s.db).0 ≡ false → (m s.db).1 ≡ s.db)
      → is_ok (in_session runtime k m s).0 ≡ false
      → (in_session runtime k m s).1.db ≡ s.db
  in_session_refused s h =
      bind_elim (λ p. is_ok p.0 ≡ false → p.1.db ≡ s.db) (on_world (runtime.session k))
        (λ u. on_db m) s (λ u e. h) (λ r n n' n''. refl)

  -- It wrote what its calls write.
  pub in_session_returned :
      (s : System W) (a : A)
      → (in_session runtime k m s).0 ≡ ok a
      → ((m s.db).0 ≡ ok a) × ((in_session runtime k m s).1.db ≡ (m s.db).1)
  in_session_returned s a =
      bind_elim (λ p. p.0 ≡ ok a → ((m s.db).0 ≡ ok a) × (p.1.db ≡ (m s.db).1))
        (on_world (runtime.session k)) (λ u. on_db m) s (λ u e h. (h, refl)) (λ r n n' h. cc)
