-- ===== src/Migration/Executor/Retry.antt =====
-- `_insert_with_retry`: what it inserts, and how often it tries.
use migrate_app_backend.Base.{
  ℕ, zero, suc, ◌+◌, ◌^◌, ◌≤◌, ◌<◌, String, ◌≡◌, Option, Bool, true, false, List, arith, Result, ok,
  ltb, is_ok,
}
use migrate_app_backend.Base.Effect.{
  Act, caught, Caught, returned, raised, when, ◌>>=◌, ok-injective,
}
use migrate_app_backend.Base.Calls.{Keeps, Keeps-when, bind_elim}
use migrate_app_backend.Migration.Value.{Python, Row}
use migrate_app_backend.Migration.Executor.{
  State, MigrationExecutor, outside, max_retries, log, after_insert, insert_attempts,
  insert_with_retry,
}

pub outside-Keeps :
    {W A X : Type 0} (view : W → X) (m : Act W A)
    → Keeps view m
    → Keeps (λ (s : State W). view s.world) (outside m)
outside-Keeps view m h = record { at = λ s. h.at s.world }

module _ {P : Python} {W : Type 0} (self : MigrationExecutor P W) (table : String)
    (tries : W → ℕ) where
  -- `tries` counts the calls of `insert_batch`, and of nothing else.
  pub record CountsInserts (rows : List (Row P)) : Type 0 where
    pub inserts : (w : W) → tries (self.destination.insert_batch table rows w).1 ≡ tries w + 1
    pub logs :
        (level text : String) (t : Option String)
        → Keeps (λ (s : State W). tries s.world) (log self level text t)
    pub sleeps : (seconds : ℕ) → Keeps tries (self.sleep seconds)

  -- With `base` calls before: between one more and `left` more, and all `left` if it returns `False`.
  record Attempts (left base : ℕ) (p : Result Bool × State W) : Type 0 where
    most : tries p.1.world ≤ base + left
    all : p.0 ≡ ok false → tries p.1.world ≡ base + left
    one : p.0 ≡ ok true → base < tries p.1.world

  failed-Attempts :
      (left base : ℕ) (r : Result Bool) (t : State W)
      → is_ok r ≡ false
      → tries t.world ≤ base + left
      → Attempts left base (r, t)
  failed-Attempts left base r t n le = record {
    most = le;
    all = λ e. absurd (ground arith);
    one = λ e. absurd (ground arith);
  }

  module _ {rows : List (Row P)} (h : CountsInserts rows) where
    quiet-Attempts :
        {A : Type 0} (left base : ℕ) (m : Act (State W) A) (f : A → Act (State W) Bool)
        (s : State W)
        → Keeps (λ (t : State W). tries t.world) m
        → tries s.world ≤ base + left
        → ((a : A) (t : State W) → tries t.world ≡ tries s.world → Attempts left base (f a t))
        → Attempts left base ((m >>= f) s)
    quiet-Attempts left base m f s keeps le k =
        bind_elim (Attempts left base) m f s (λ a e. k a (m s).1 (keeps.at s))
          (λ r n _. failed-Attempts left base r (m s).1 n (omega (arith, keeps.at s)))

    after_insert-Attempts :
        (again : ℕ → Act (State W) Bool) (left base attempt : ℕ) (r : Caught ℕ) (s : State W)
        → tries s.world ≡ base + 1
        → ((k : ℕ) (t : State W) → Attempts left (tries t.world) (again k t))
        → Attempts (suc left) base (after_insert self again attempt table r s)
    unfolding after_insert
    after_insert-Attempts again left base attempt (returned n) s e k = record {
      most = omega arith;
      all = λ p. cc (ok-injective p);
      one = λ p. omega arith;
    }
    after_insert-Attempts again left base attempt (raised x) s e k =
        quiet-Attempts (suc left) base _ _ s (h.logs _ _ _) (omega arith) λ u t p.
          quiet-Attempts (suc left) base
            (when (ltb attempt (max_retries self)) (outside (self.sleep (2 ^ attempt))))
            (λ v. again (attempt + 1)) t
            (Keeps-when (λ (z : State W). tries z.world) _ _
              (outside-Keeps tries _ (h.sleeps (2 ^ attempt))))
            (omega arith) λ v z q. later z (omega arith) (k (attempt + 1) z)
      where
        later :
            (z : State W)
            → tries z.world ≡ base + 1
            → Attempts left (tries z.world) (again (attempt + 1) z)
            → Attempts (suc left) base (again (attempt + 1) z)
        later z e rest = record {
          most = omega (arith, rest.most);
          all = λ w. omega (arith, rest.all w);
          one = λ w. omega (arith, rest.one w);
        }

    insert_attempts-Attempts :
        (left attempt : ℕ) (s : State W)
        → Attempts left (tries s.world) (insert_attempts self table rows left attempt s)
    unfolding insert_attempts
    insert_attempts-Attempts zero attempt s =
        quiet-Attempts zero (tries s.world) _ _ s (h.logs _ _ _) (omega arith) λ u t e. record {
          most = omega arith;
          all = λ p. omega arith;
          one = λ p. cc (ok-injective p);
        }
    insert_attempts-Attempts (suc left) attempt s =
        bind_elim (Attempts (suc left) (tries s.world))
          (caught (outside (self.destination.insert_batch table rows)))
          (after_insert self (insert_attempts self table rows left) attempt table) s
          (λ r e.
            after_insert-Attempts (insert_attempts self table rows left) left (tries s.world)
              attempt r _ (h.inserts s.world) (insert_attempts-Attempts left))
          (λ r n _.
            failed-Attempts (suc left) (tries s.world) r _ n (omega (arith, h.inserts s.world)))

    -- For a count of the calls of `insert_batch` that logging and sleeping leave alone:
    -- `_insert_with_retry` calls `insert_batch` at most `max_retries + 1` times, returns `True` only
    -- after a call, and returns `False` only after all `max_retries + 1` of them.
    pub insert_with_retry_attempts :
        (s : State W)
        → let (r, t) = insert_with_retry self table rows s in
          (tries t.world ≤ tries s.world + (max_retries self + 1))
          × (r ≡ ok true → tries s.world < tries t.world)
          × (r ≡ ok false → tries t.world ≡ tries s.world + (max_retries self + 1))
    unfolding insert_with_retry
    insert_with_retry_attempts s =
        let a = insert_attempts-Attempts (max_retries self + 1) 0 s in (a.most, a.one, a.all)
