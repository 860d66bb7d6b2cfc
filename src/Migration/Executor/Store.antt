-- ===== src/Migration/Executor/Store.antt =====
-- What one batch of `_migrate_table` has put into the destination, however its insert ends.
use migrate_app_backend.Base.{
  ℕ, zero, suc, ◌+◌, ◌<◌, String, ◌≡◌, refl, ◌≢◌, ap, ◌∙◌, Option, Bool, true, false, List, ◌++◌,
  take, drop, arith, Exception, Result, ok, is_ok,
}
use migrate_app_backend.Base.Effect.{
  Act, lift, caught, Caught, returned, raised, ◌>>=◌, ok-injective,
}
use migrate_app_backend.Base.Calls.{
  Keeps, Keeps-when, bind_elim, caught_returned_is_ok, caught_raised_not_ok, caught_not_ok,
}
use migrate_app_backend.Schemas.Migration.{ColumnMapping}
use migrate_app_backend.Migration.Value.{Python, Row}
use migrate_app_backend.Migration.Executor.{
  State, MigrationExecutor, outside, max_retries, log, progress, after_insert, insert_attempts,
  insert_with_retry, transform, store_batch, fetched_columns,
}

module _ {P : Python} {W : Type 0} (self : MigrationExecutor P W) (table : String)
    (mappings : List ColumnMapping) (contents : W → List (Row P)) (rows : List (Row P)) where
  -- The seen state: the rows of the destination table, and the executor's count.
  abbrev pub seen : State W → List (Row P) × ℕ
  seen s = (contents s.world, s.total)

  -- The source serves the rows of one unchanging table by offset and limit. An insert adds its rows,
  -- or fails and adds none. Nothing else touches the destination table.
  pub record IsTabular : Type 0 where
    pub positive : 0 < self.settings.batch_size
    pub fetched :
        (offset : ℕ) (w : W) (batch : List (Row P))
        → (self.source.fetch_batch table offset self.settings.batch_size
            (fetched_columns self mappings)
            w).0
          ≡ ok batch
        → batch ≡ take self.settings.batch_size (drop offset rows)
    pub fetch_keeps :
        (offset : ℕ)
        → Keeps contents (
            self.source.fetch_batch table offset self.settings.batch_size
              (fetched_columns self mappings))
    pub inserted :
        (batch : List (Row P)) (w : W)
        → is_ok (self.destination.insert_batch table batch w).0 ≡ true
        → contents (self.destination.insert_batch table batch w).1 ≡ contents w ++ batch
    pub refused :
        (batch : List (Row P)) (w : W)
        → is_ok (self.destination.insert_batch table batch w).0 ≡ false
        → contents (self.destination.insert_batch table batch w).1 ≡ contents w
    pub logs : (level text : String) (t : Option String) → Keeps seen (log self level text t)
    pub reports : (n : ℕ) → Keeps seen (progress self table n)
    pub sleeps : (seconds : ℕ) → Keeps contents (self.sleep seconds)

  -- `batch` was added by a call that ended so.
  record Inserted (batch : List (Row P)) (before : List (Row P) × ℕ) (p : Result Bool × State W)
      : Type 0 where
    total : p.1.total ≡ before.1
    added : p.0 ≡ ok true → contents p.1.world ≡ before.0 ++ batch
    same : p.0 ≢ ok true → contents p.1.world ≡ before.0

  unmoved :
      (batch : List (Row P)) (before : List (Row P) × ℕ) (r : Result Bool) (t : State W)
      → seen t ≡ before
      → r ≢ ok true
      → Inserted batch before (r, t)
  unmoved batch before r t e n = record {
    total = ap (λ (p : List (Row P) × ℕ). p.1) e;
    added = λ y. absurd (n y);
    same = λ _. ap (λ (p : List (Row P) × ℕ). p.0) e;
  }

  pub failed-ne : (r : Result Bool) → is_ok r ≡ false → r ≢ ok true
  failed-ne r n e = absurd (ground arith)

  module _ (h : IsTabular) where
    pub sleep-Keeps : (seconds : ℕ) → Keeps seen (outside (self.sleep seconds))
    sleep-Keeps n = record { at = λ s i. ((h.sleeps n).at s.world i, s.total) }

    quiet-Inserted :
        {A : Type 0} (batch : List (Row P)) (before : List (Row P) × ℕ) (m : Act (State W) A)
        (f : A → Act (State W) Bool) (s : State W)
        → Keeps seen m
        → seen s ≡ before
        → ((a : A) (t : State W) → seen t ≡ before → Inserted batch before (f a t))
        → Inserted batch before ((m >>= f) s)
    quiet-Inserted batch before m f s keeps e k =
        bind_elim (Inserted batch before) m f s (λ a _. k a (m s).1 (keeps.at s ∙ e))
          (λ r n _. unmoved batch before r (m s).1 (keeps.at s ∙ e) (failed-ne r n))

    after_insert-Inserted :
        (batch : List (Row P)) (before : List (Row P) × ℕ) (again : ℕ → Act (State W) Bool)
        (attempt : ℕ) (r : Caught ℕ) (s : State W)
        → s.total ≡ before.1
        → ((n : ℕ) → r ≡ returned n → contents s.world ≡ before.0 ++ batch)
        → ((x : Exception) → r ≡ raised x → contents s.world ≡ before.0)
        → ((k : ℕ) (t : State W) → seen t ≡ before → Inserted batch before (again k t))
        → Inserted batch before (after_insert self again attempt table r s)
    unfolding after_insert
    after_insert-Inserted batch before again attempt (returned n) s e a b k = record {
      total = e;
      added = λ _. a n refl;
      same = λ y. absurd (y refl);
    }
    after_insert-Inserted batch before again attempt (raised x) s e a b k =
        quiet-Inserted batch before _ _ s (h.logs _ _ _) (λ i. (b x refl i, e i))
          λ u t p.
            quiet-Inserted batch before _ _ t (Keeps-when seen _ _ (sleep-Keeps _)) p
              λ v z q. k (attempt + 1) z q

    insert_attempts-Inserted :
        (batch : List (Row P)) (before : List (Row P) × ℕ) (left attempt : ℕ) (s : State W)
        → seen s ≡ before
        → Inserted batch before (insert_attempts self table batch left attempt s)
    unfolding insert_attempts
    insert_attempts-Inserted batch before zero attempt s e =
        quiet-Inserted batch before _ _ s (h.logs _ _ _) e
          λ u t p. unmoved batch before (ok false) t p (λ q. cc (ok-injective q))
    insert_attempts-Inserted batch before (suc left) attempt s e =
        bind_elim (Inserted batch before)
          (caught (outside (self.destination.insert_batch table batch)))
          (after_insert self (insert_attempts self table batch left) attempt table) s
          (λ r q.
            after_insert-Inserted batch before (insert_attempts self table batch left) attempt r _
              (ap (λ (p : List (Row P) × ℕ). p.1) e)
              (λ n y.
                h.inserted batch s.world (caught_returned_is_ok _ n (q ∙ ap ok y))
                ∙ ap (λ (p : List (Row P) × ℕ). p.0 ++ batch) e)
              (λ x y.
                h.refused batch s.world (caught_raised_not_ok _ x (q ∙ ap ok y))
                ∙ ap (λ (p : List (Row P) × ℕ). p.0) e)
              (insert_attempts-Inserted batch before left))
          (λ r n f.
            unmoved batch before r _
              (λ i. (
                (h.refused batch s.world (caught_not_ok _ f) ∙ ap (λ (p : List (Row P) × ℕ). p.0) e)
                    i,
                (e i).1,
              ))
              (failed-ne r n))

    -- A fetched batch was transformed and added, or the destination is as before.
    pub record Stored (batch : List (Row P)) (before : List (Row P) × ℕ) (p : Result Bool × State W)
        : Type 0 where
      pub added :
          p.0 ≡ ok true
          → (out : List (Row P)) × (transform self mappings batch ≡ ok out)
            × (seen p.1 ≡ (before.0 ++ out, before.1))
      pub same : p.0 ≢ ok true → seen p.1 ≡ before

    pub store_batch-Stored :
        (batch : List (Row P)) (s : State W)
        → Stored batch (seen s) (store_batch self table mappings batch s)
    unfolding store_batch insert_with_retry
    store_batch-Stored batch s =
        bind_elim (Stored batch (seen s)) (lift (transform self mappings batch))
          (λ out. insert_attempts self table out (max_retries self + 1) 0) s
          (λ out e.
            let d = insert_attempts-Inserted out (seen s) (max_retries self + 1) 0 s refl in
            record {
              added = λ y. (out, e, λ i. (d.added y i, d.total i));
              same = λ n i. (d.same n i, d.total i);
            })
          (λ r n _. record { added = λ y. absurd (failed-ne r n y); same = λ _. refl })
