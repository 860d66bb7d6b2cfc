-- ===== src/Migration/Executor/Completes.antt =====
-- `_migrate_table`'s loop between two databases whose calls succeed in every state for which an
-- invariant holds, and keep it.
use migrate_app_backend.Base.{
  ℕ, zero, suc, ◌+◌, ◌-◌, ◌≤◌, ◌<◌, String, ◌≡◌, refl, Option, Bool, true, false, List, [], ◌∷◌,
  length, arith, is_ok,
}
use native.Mathlib.Decide.{dec_le}
use migrate_app_backend.Base.Effect.{Act, returned, lift}
use migrate_app_backend.Base.Yields.{Yields, Any, Yields-pure, Yields-lift, Yields-bind, Yields-try}
use migrate_app_backend.Schemas.Migration.{ColumnMapping}
use migrate_app_backend.Migration.Value.{Python, Row}
use migrate_app_backend.Migration.Executor.{
  State, MigrationExecutor, outside, add_rows, max_retries, call_log, log, call_progress, progress,
  after_insert, insert_attempts, insert_with_retry, transform, store_batch, fetch, fetched_columns,
  after_store, after_fetch, copy_loop,
}

abbrev pub IsTrue : Bool → Type 0
IsTrue b = b ≡ true

-- the invariant of an executor's state that is one of its world
abbrev pub Holds : {W : Type 0} → (W → Type 0) → State W → Type 0
Holds I s = I s.world

pub Yields-outside :
    {W A : Type 0} (I : W → Type 0) (Q : A → Type 0) (m : Act W A)
    → Yields I Q m
    → Yields (Holds I) Q (outside m)
Yields-outside I Q m h = record { at = λ s i. h.at s.world i }

module _ {P : Python} {W : Type 0} (self : MigrationExecutor P W) (I : W → Type 0) where
  -- `on_log` succeeds.
  pub record IsLogging : Type 0 where
    pub logs :
        (level text : String) (t : Option String)
        → Yields I Any (call_log self self.on_log level text t)

  pub log-Yields :
      IsLogging
      → (level text : String) (t : Option String) → Yields (Holds I) Any (log self level text t)
  unfolding log
  log-Yields h level text t = Yields-outside I Any _ (h.logs level text t)

  module _ (table : String) (mappings : List ColumnMapping) where
    -- Every call that the loop makes succeeds, and from row `size` on the source has no more rows.
    pub record IsReliable (size : ℕ) : Type 0 where
      pub fetches :
          (offset : ℕ)
          → Yields I
              (λ (batch : List (Row P)). size ≤ offset → batch ≡ [])
              (self.source.fetch_batch table offset self.settings.batch_size
                (fetched_columns self mappings))
      pub inserts : (rows : List (Row P)) → Yields I Any (self.destination.insert_batch table rows)
      pub transforms : (rows : List (Row P)) → is_ok (transform self mappings rows) ≡ true
      pub reports :
          (rows total : ℕ) → Yields I Any (call_progress self self.on_progress table rows total)

    module _ {size : ℕ} (h : IsReliable size) (l : IsLogging) where
      insert_attempts-Yields :
          (rows : List (Row P)) (left attempt : ℕ)
          → 0 < left
          → Yields (Holds I) IsTrue (insert_attempts self table rows left attempt)
      unfolding insert_attempts after_insert
      insert_attempts-Yields rows zero attempt some_left = absurd (omega arith)
      insert_attempts-Yields rows (suc left) attempt some_left =
          Yields-try (Holds I) Any IsTrue (outside (self.destination.insert_batch table rows)) _
            (Yields-outside I Any _ (h.inserts rows))
            (λ n q. Yields-pure (Holds I) IsTrue true refl)

      store_batch-Yields :
          (batch : List (Row P)) → Yields (Holds I) IsTrue (store_batch self table mappings batch)
      unfolding store_batch insert_with_retry
      store_batch-Yields batch =
          Yields-bind (Holds I) Any IsTrue (lift (transform self mappings batch)) _
            (Yields-lift (Holds I) _ (h.transforms batch))
            (λ rows q. insert_attempts-Yields rows (max_retries self + 1) 0 (omega arith))

      progress-Yields : (rows : ℕ) → Yields (Holds I) Any (progress self table rows)
      unfolding progress
      progress-Yields rows = record { at = λ s i. (h.reports rows s.total).at s.world i }

      module _ (again : ℕ → ℕ → ℕ → Act (State W) Bool) (offset rows retry_count : ℕ)
          (completes : (count : ℕ)
            → 0 < count
            → offset < size
            → Yields (Holds I) IsTrue (again (offset + count) (rows + count) 0)) where
        after_store-Yields :
            (count : ℕ) (b : Bool)
            → b ≡ true
            → 0 < count
            → offset < size
            → Yields (Holds I) IsTrue (after_store self table mappings again offset rows count b)
        unfolding after_store
        after_store-Yields count false e c m = cc
        after_store-Yields count true e c m =
            Yields-bind (Holds I) Any IsTrue (add_rows count) _
              (record { at = λ s i. (tt, refl, tt, i) })
              (λ u q.
                Yields-bind (Holds I) Any IsTrue (progress self table (rows + count)) _
                  (progress-Yields (rows + count)) (λ v p. completes count c m))

        after_fetch-Yields :
            (batch : List (Row P))
            → (size ≤ offset → batch ≡ [])
            → Yields
                (Holds I)
                IsTrue
                (after_fetch self table mappings again offset rows retry_count (returned batch))
        unfolding after_fetch
        after_fetch-Yields [] q =
            Yields-bind (Holds I) Any IsTrue (log self _ _ _) _ (log-Yields l _ _ _)
              (λ u p. Yields-pure (Holds I) IsTrue true refl)
        after_fetch-Yields (row ∷ batch) q =
            Yields-bind (Holds I) IsTrue IsTrue (store_batch self table mappings (row ∷ batch)) _
              (store_batch-Yields (row ∷ batch))
              (λ b e. after_store-Yields (length (row ∷ batch)) b e (omega arith) more)
          where
            more : offset < size
            more = elim (dec_le size offset) [
              | yes past ↦ absurd (let none_left : (row ∷ batch) ≡ [] = q past in cc)
              | no before ↦ omega arith
            ]

      -- Between databases whose calls all succeed, where the source has no rows from row `size` on
      -- and no batch fails to be transformed, with more fuel than there are rows left, the copy
      -- loop returns `True`.
      pub copy_loop_completes :
          (fuel offset rows retry_count : ℕ)
          → size - offset < fuel
          → Yields (Holds I) IsTrue (copy_loop self table mappings fuel offset rows retry_count)
      unfolding copy_loop fetch
      copy_loop_completes zero offset rows k enough = absurd (omega arith)
      copy_loop_completes (suc fuel) offset rows k enough =
          Yields-try (Holds I) (λ batch. size ≤ offset → batch ≡ []) IsTrue
            (fetch self table mappings offset) _ (Yields-outside I _ _ (h.fetches offset))
            (after_fetch-Yields (copy_loop self table mappings fuel) offset rows k (λ count c m.
              copy_loop_completes fuel (offset + count) (rows + count) 0 (omega arith)))
