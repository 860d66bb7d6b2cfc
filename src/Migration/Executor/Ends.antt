-- ===== src/Migration/Executor/Ends.antt =====
-- app/migration/executor.py: the rounds of the copy loop of `_migrate_table`.
use native.Mathlib.Decide.{dec_le}
use migrate_app_backend.Base.{
  ℕ, zero, suc, ◌+◌, ◌-◌, ◌*◌, ◌≤◌, ◌<◌, String, ◌≡◌, refl, ◌≢◌, ap, ◌∙◌, Option, Bool, true, false,
  List, [], ◌∷◌, arith, ok, out_of_fuel, ltb,
}
use migrate_app_backend.Base.Effect.{Act, caught, Caught, returned, raised}
use migrate_app_backend.Base.Calls.{
  Terminates, Terminates-pure, Terminates-lift, Terminates-caught, Terminates-bind, Terminates-when,
  bind-ne, caught-returned,
}
use migrate_app_backend.Schemas.Migration.{ColumnMapping}
use migrate_app_backend.Migration.Value.{Python, Row}
use migrate_app_backend.Migration.Executor.{
  State, MigrationExecutor, outside, add_rows, max_retries, log, progress, after_insert,
  insert_attempts, insert_with_retry, transform, store_batch, fetch, fetched_columns, after_store,
  retry_fetch, after_fetch, copy_loop,
}

pub outside-Terminates : {W A : Type 0} (m : Act W A) → Terminates m → Terminates (outside m)
outside-Terminates m h = record { at = λ s. h.at s.world }

add_rows-Terminates : {W : Type 0} (n : ℕ) → Terminates (add_rows {W = W} n)
add_rows-Terminates {W} n = record { at = at_state }
  where
    at_state : (s : State W) → (add_rows n s).0 ≢ out_of_fuel
    at_state s p = cc

fewer_rounds : (d d' q x fuel : ℕ) → d' < d → d * (q + 1) + x ≤ fuel → d' * (q + 1) + (q - 0) < fuel
fewer_rounds d d' q x fuel less enough =
    let step : (d' + 1) * (q + 1) ≤ d * (q + 1) = grind arith in grind arith

module _ {P : Python} {W : Type 0} (self : MigrationExecutor P W) (table : String)
    (mappings : List ColumnMapping) where
  -- Every call that the loop makes comes back, with a value or an exception, and from row `size` on
  -- the source has no more rows to give.
  pub record IsResponsive (size : ℕ) : Type 0 where
    pub fetches :
        (offset : ℕ)
        → Terminates (
            self.source.fetch_batch table offset self.settings.batch_size
              (fetched_columns self mappings))
    pub exhausted :
        (offset : ℕ) (w : W) (batch : List (Row P))
        → size ≤ offset
        → (self.source.fetch_batch table offset self.settings.batch_size
            (fetched_columns self mappings)
            w).0
          ≡ ok batch
        → batch ≡ []
    pub inserts : (rows : List (Row P)) → Terminates (self.destination.insert_batch table rows)
    pub transforms : (rows : List (Row P)) → transform self mappings rows ≢ out_of_fuel
    pub logs : (level text : String) (t : Option String) → Terminates (log self level text t)
    pub reports : (rows : ℕ) → Terminates (progress self table rows)
    pub sleeps : (seconds : ℕ) → Terminates (self.sleep seconds)

  module _ {size : ℕ} (h : IsResponsive size) where
    after_insert-Terminates :
        (again : ℕ → Act (State W) Bool) (attempt : ℕ) (r : Caught ℕ)
        → ((k : ℕ) → Terminates (again k))
        → Terminates (after_insert self again attempt table r)
    unfolding after_insert
    after_insert-Terminates again attempt (returned n) k = Terminates-pure true
    after_insert-Terminates again attempt (raised e) k = Terminates-bind _ _ (h.logs _ _ _) λ u.
        Terminates-bind _ _ (Terminates-when _ _ (outside-Terminates _ (h.sleeps _)))
          λ v. k (attempt + 1)

    insert_attempts-Terminates :
        (rows : List (Row P)) (left attempt : ℕ)
        → Terminates (insert_attempts self table rows left attempt)
    unfolding insert_attempts
    insert_attempts-Terminates rows zero attempt =
        Terminates-bind _ _ (h.logs _ _ _) λ u. Terminates-pure false
    insert_attempts-Terminates rows (suc left) attempt =
        Terminates-bind _ _ (Terminates-caught _ (outside-Terminates _ (h.inserts rows))) λ r.
          after_insert-Terminates (insert_attempts self table rows left) attempt r
            (insert_attempts-Terminates rows left)

    store_batch-Terminates :
        (batch : List (Row P)) → Terminates (store_batch self table mappings batch)
    unfolding store_batch insert_with_retry
    store_batch-Terminates batch =
        Terminates-bind _ _ (Terminates-lift _ (h.transforms batch))
          λ rows. insert_attempts-Terminates rows (max_retries self + 1) 0

    -- The fetches that are left, at most: each row that is left is followed by all retries.
    abbrev pub rounds_left : ℕ → ℕ → ℕ
    rounds_left offset retry_count =
        (size - offset) * (max_retries self + 1) + (max_retries self - retry_count)

    module _ (again : ℕ → ℕ → ℕ → Act (State W) Bool) (fuel offset rows retry_count : ℕ)
        (enough : rounds_left offset retry_count ≤ fuel)
        (ends : (o r k : ℕ) → rounds_left o k < fuel → Terminates (again o r k)) where
      fewer : (count : ℕ) → 0 < count → offset < size → rounds_left (offset + count) 0 < fuel
      fewer count some_rows more =
          fewer_rounds (size - offset) (size - (offset + count)) (max_retries self)
            (max_retries self - retry_count) fuel (omega arith) enough

      after_store-Terminates :
          (count : ℕ) (b : Bool)
          → 0 < count
          → offset < size
          → Terminates (after_store self table mappings again offset rows count b)
      unfolding after_store
      after_store-Terminates count false c m = Terminates-pure false
      after_store-Terminates count true c m =
          Terminates-bind (add_rows count) _ (add_rows-Terminates count) λ u.
            Terminates-bind (progress self table (rows + count)) _ (h.reports (rows + count))
              λ v. ends (offset + count) (rows + count) 0 (fewer count c m)

      retry_fetch-Terminates :
          (b : Bool)
          → ltb retry_count (max_retries self) ≡ b
          → Terminates (retry_fetch self table mappings again offset rows retry_count b)
      unfolding retry_fetch
      retry_fetch-Terminates false e = Terminates-pure false
      retry_fetch-Terminates true e =
          Terminates-bind _ _ (outside-Terminates _ (h.sleeps _)) λ u. ends _ _ _ (ground arith)

      after_fetch-Terminates :
          (r : Caught (List (Row P)))
          → ((batch : List (Row P)) → r ≡ returned batch → batch ≢ [] → offset < size)
          → Terminates (after_fetch self table mappings again offset rows retry_count r)
      unfolding after_fetch
      after_fetch-Terminates (raised e) m =
          Terminates-bind _ _ (h.logs _ _ _) λ u. retry_fetch-Terminates _ refl
      after_fetch-Terminates (returned []) m =
          Terminates-bind _ _ (h.logs _ _ _) λ u. Terminates-pure true
      after_fetch-Terminates (returned (row ∷ batch)) m =
          Terminates-bind _ _ (store_batch-Terminates (row ∷ batch))
            λ b. after_store-Terminates _ b (omega arith) (m (row ∷ batch) refl (λ e. cc))

    more_rows :
        (offset : ℕ) (s : State W) (batch : List (Row P))
        → (fetch self table mappings offset s).0 ≡ ok batch
        → batch ≢ []
        → offset < size
    unfolding fetch
    more_rows offset s batch e full = elim (dec_le size offset) [
      | yes past ↦ absurd (full (h.exhausted offset s.world batch past e))
      | no before ↦ omega arith
    ]

    -- If each call comes back with a value or an exception, and the source has no rows from row
    -- `size` on (`IsResponsive`), then with more fuel than there are rounds left the copy loop ends
    -- with a result or an exception, whichever of its calls fail, and however often.
    pub copy_loop-Terminates :
        (fuel offset rows retry_count : ℕ)
        → rounds_left offset retry_count < fuel
        → Terminates (copy_loop self table mappings fuel offset rows retry_count)
    unfolding copy_loop
    copy_loop-Terminates zero offset rows k enough = absurd (omega arith)
    copy_loop-Terminates (suc fuel) offset rows k enough = record {
      at = λ s.
          bind-ne (caught (fetch self table mappings offset))
            (after_fetch self table mappings (copy_loop self table mappings fuel) offset rows k) s
            ((Terminates-caught _ (outside-Terminates _ (h.fetches offset))).at s)
            (λ r e.
              (after_fetch-Terminates (copy_loop self table mappings fuel) fuel offset rows k
                  (omega arith) (copy_loop-Terminates fuel) r
                  (λ batch same full.
                    more_rows offset s batch (caught-returned _ batch (e ∙ ap ok same)) full)).at
                _);
    }
