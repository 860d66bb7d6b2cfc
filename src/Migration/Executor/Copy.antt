-- ===== src/Migration/Executor/Copy.antt =====
-- What the copy loop of `_migrate_table` has put into the destination when it ends, however it ends.
use mathlib.Core.List.{append-nil, append_assoc}
use mathlib.Core.Bool.{true≢false}
use migrate_app_backend.Base.{
  ℕ, zero, suc, ◌+◌, String, ◌≡◌, refl, sym, ap, ◌∙◌, Bool, true, false, List, [], ◌∷◌, ◌++◌,
  length, length-append, take, drop, drop-drop, take-append-drop-length, take-eq-nil, arith, Result,
  ok, out_of_fuel,
}
use migrate_app_backend.Base.Effect.{Act, caught, Caught, returned, raised, ◌>>=◌, ok-injective}
use migrate_app_backend.Base.Calls.{Keeps, bind_elim, caught-returned}
use migrate_app_backend.Schemas.Migration.{ColumnMapping}
use migrate_app_backend.Migration.Value.{Python, Row}
use migrate_app_backend.Migration.Mapper.{active_mappings, apply_mappings}
use migrate_app_backend.Migration.Mapper.Rows.{map_rows-append}
use migrate_app_backend.Migration.Executor.{
  State, MigrationExecutor, add_rows, progress, transform, transform_by, store_batch, fetch,
  after_store, retry_fetch, after_fetch, copy_loop,
}
use migrate_app_backend.Migration.Executor.Store.{
  IsTabular, seen, Stored, store_batch-Stored, failed-ne, sleep-Keeps,
}

module _ {P : Python} {W : Type 0} (self : MigrationExecutor P W)
    (mappings : List ColumnMapping) where
  transform_nil : transform self mappings [] ≡ ok []
  unfolding transform apply_mappings
  transform_nil = by_active (active_mappings mappings)
    where
      by_active : (active : List ColumnMapping) → transform_by self active mappings [] ≡ ok []
      by_active [] = refl
      by_active (m ∷ ms) = refl

  transform_by-append :
      (active : List ColumnMapping) (xs ys out1 out2 : List (Row P))
      → transform_by self active mappings xs ≡ ok out1
      → transform_by self active mappings ys ≡ ok out2
      → transform_by self active mappings (xs ++ ys) ≡ ok (out1 ++ out2)
  unfolding transform_by apply_mappings
  transform_by-append [] xs ys out1 out2 e f = λ i. ok (ok-injective e i ++ ok-injective f i)
  transform_by-append (m ∷ ms) xs ys out1 out2 e f =
      map_rows-append P (active_mappings mappings) xs ys out1 out2 e f

  transform-append :
      (xs ys out1 out2 : List (Row P))
      → transform self mappings xs ≡ ok out1
      → transform self mappings ys ≡ ok out2
      → transform self mappings (xs ++ ys) ≡ ok (out1 ++ out2)
  unfolding transform
  transform-append = transform_by-append (active_mappings mappings)

module _ {P : Python} {W : Type 0} (self : MigrationExecutor P W) (table : String)
    (mappings : List ColumnMapping) (contents : W → List (Row P)) (rows : List (Row P)) where
  abbrev Seen : Type 0
  Seen = List (Row P) × ℕ

  abbrev view : State W → Seen
  view = seen self table mappings contents rows

  -- From row `offset` on some rows are done: the destination holds what they were transformed to,
  -- behind what it held before, and the executor has counted them. `True` says that none are left.
  pub record Copied (offset : ℕ) (before : Seen) (p : Result Bool × State W) : Type 0 where
    pub copied : List (Row P)
    pub left : List (Row P)
    pub out : List (Row P)
    pub split : drop offset rows ≡ copied ++ left
    pub transformed : transform self mappings copied ≡ ok out
    pub stored : contents p.1.world ≡ before.0 ++ out
    pub counted : p.1.total ≡ before.1 + length copied
    pub finished : p.0 ≡ ok true → left ≡ []

  halted :
      (offset : ℕ) (before : Seen) (r : Result Bool) (t : State W)
      → view t ≡ before
      → (r ≡ ok true → drop offset rows ≡ [])
      → Copied offset before (r, t)
  halted offset before r t e n = record {
    copied = [];
    left = drop offset rows;
    out = [];
    split = refl;
    transformed = transform_nil self mappings;
    stored = ap (λ (p : Seen). p.0) e ∙ sym (append-nil before.0);
    counted = let e' : t.total ≡ before.1 = ap (λ (p : Seen). p.1) e in omega arith;
    finished = n;
  }

  extend :
      (offset : ℕ) (batch out : List (Row P)) (before : Seen) (p : Result Bool × State W)
      → drop offset rows ≡ batch ++ drop (offset + length batch) rows
      → transform self mappings batch ≡ ok out
      → Copied (offset + length batch) (before.0 ++ out, before.1 + length batch) p
      → Copied offset before p
  extend offset batch out before p e f c = record {
    copied = batch ++ c.copied;
    left = c.left;
    out = out ++ c.out;
    split = e ∙ ap (λ l. batch ++ l) c.split ∙ sym (append_assoc batch c.copied c.left);
    transformed = transform-append self mappings batch c.copied out c.out f c.transformed;
    stored = c.stored ∙ append_assoc before.0 out c.out;
    counted = omega (arith, c.counted, length-append batch c.copied);
    finished = c.finished;
  }

  module _ (h : IsTabular self table mappings contents rows) where
    quiet-Copied :
        {A : Type 0} (offset : ℕ) (before : Seen) (m : Act (State W) A) (f : A → Act (State W) Bool)
        (s : State W)
        → Keeps view m
        → view s ≡ before
        → ((a : A) (t : State W) → view t ≡ before → Copied offset before (f a t))
        → Copied offset before ((m >>= f) s)
    quiet-Copied offset before m f s keeps e k =
        bind_elim (Copied offset before) m f s (λ a _. k a (m s).1 (keeps.at s ∙ e))
          (λ r n _.
            halted offset before r (m s).1 (keeps.at s ∙ e)
              (λ y. absurd (failed-ne self table mappings contents rows r n y)))

    rest_of_batch :
        (offset : ℕ) (batch : List (Row P))
        → batch ≡ take self.settings.batch_size (drop offset rows)
        → drop offset rows ≡ batch ++ drop (offset + length batch) rows
    rest_of_batch offset batch e = sym (
        ap (λ l. batch ++ l) (drop-drop offset (length batch) rows)
        ∙ ap (λ (b : List (Row P)). b ++ drop (length b) (drop offset rows)) e
        ∙ take-append-drop-length self.settings.batch_size (drop offset rows))

    abbrev Copies : (ℕ → ℕ → ℕ → Act (State W) Bool) → Type 0
    Copies again = (o r k : ℕ) (t : State W) → Copied o (view t) (again o r k t)

    module _ (again : ℕ → ℕ → ℕ → Act (State W) Bool) (ih : Copies again) (offset done : ℕ) where
      after_store-Copied :
          (batch out : List (Row P)) (before : Seen) (t : State W)
          → drop offset rows ≡ batch ++ drop (offset + length batch) rows
          → transform self mappings batch ≡ ok out
          → view t ≡ (before.0 ++ out, before.1)
          → Copied offset before
              (after_store self table mappings again offset done (length batch) true t)
      unfolding after_store
      after_store-Copied batch out before t e f v = extend offset batch out before _ e f (
          quiet-Copied (offset + length batch) (before.0 ++ out, before.1 + length batch)
            (progress self table (done + length batch))
            (λ u. again (offset + length batch) (done + length batch) 0)
            (add_rows (length batch) t).1 (h.reports (done + length batch))
            (λ i. ((v i).0, (v i).1 + length batch))
            λ u z q. rw (← q) (ih (offset + length batch) (done + length batch) 0 z))

      Stored-Copied :
          (batch : List (Row P)) (before : Seen) (r : Result Bool) (t : State W)
          → drop offset rows ≡ batch ++ drop (offset + length batch) rows
          → Stored self table mappings contents rows h batch before (r, t)
          → (b : Bool) → r ≡ ok b
          → Copied offset before
              (after_store self table mappings again offset done (length batch) b t)
      unfolding after_store
      Stored-Copied batch before r t e d true q =
          let (out, f, v) = d.added q in after_store-Copied batch out before t e f v
      Stored-Copied batch before r t e d false q =
          halted offset before (ok false) t
            (d.same (λ y. absurd (true≢false (ok-injective (sym y ∙ q)))))
            (λ y. cc (ok-injective y))

      retry_fetch-Copied :
          (k : ℕ) (b : Bool) (s : State W)
          → Copied offset (view s) (retry_fetch self table mappings again offset done k b s)
      unfolding retry_fetch
      retry_fetch-Copied k false s =
          halted offset (view s) (ok false) s refl (λ y. cc (ok-injective y))
      retry_fetch-Copied k true s =
          quiet-Copied offset (view s) _ _ s (sleep-Keeps self table mappings contents rows h _)
            refl λ u t q. rw (← q) (ih offset done (k + 1) t)

      after_fetch-Copied :
          (k : ℕ) (r : Caught (List (Row P))) (s : State W)
          → ((batch : List (Row P))
              → r ≡ returned batch
              → batch ≡ take self.settings.batch_size (drop offset rows))
          → Copied offset (view s) (after_fetch self table mappings again offset done k r s)
      unfolding after_fetch
      after_fetch-Copied k (raised x) s f =
          quiet-Copied offset (view s) _ _ s (h.logs _ _ _) refl
            λ u t q. rw (← q) (retry_fetch-Copied k _ t)
      after_fetch-Copied k (returned []) s f =
          quiet-Copied offset (view s) _ _ s (h.logs _ _ _) refl λ u t q.
            halted offset (view s) (ok true) t q (λ y.
              take-eq-nil self.settings.batch_size (drop offset rows) h.positive (sym (f [] refl)))
      after_fetch-Copied k (returned (row ∷ batch)) s f =
          let d = store_batch-Stored self table mappings contents rows h (row ∷ batch) s in
          bind_elim (Copied offset (view s)) (store_batch self table mappings (row ∷ batch))
            (after_store self table mappings again offset done (length (row ∷ batch))) s
            (λ b q.
              Stored-Copied (row ∷ batch) (view s) _ _
                (rest_of_batch offset (row ∷ batch) (f (row ∷ batch) refl)) d b q)
            (λ r n m.
              halted offset (view s) r _ (d.same (failed-ne self table mappings contents rows _ m))
                (λ y. absurd (failed-ne self table mappings contents rows r n y)))

    fetch-Keeps : (offset : ℕ) → Keeps view (caught (fetch self table mappings offset))
    unfolding fetch
    fetch-Keeps offset = record { at = λ s i. ((h.fetch_keeps offset).at s.world i, s.total) }

    fetched_batch :
        (offset : ℕ) (s : State W) (r : Caught (List (Row P)))
        → (caught (fetch self table mappings offset) s).0 ≡ ok r
        → (batch : List (Row P)) → r ≡ returned batch
        → batch ≡ take self.settings.batch_size (drop offset rows)
    unfolding fetch
    fetched_batch offset s r e batch same =
        h.fetched offset s.world batch (caught-returned _ batch (e ∙ ap ok same))

    -- If the source serves the rows of one unchanging table by offset and limit, an insert adds all
    -- of its rows or none, and nothing else touches the destination table (`IsTabular`), then the
    -- following holds. However the copy loop ends (`True`, `False`, an exception of a callback or of
    -- a coercion), and whatever failed on the way, the destination has exactly the transformed rows
    -- of a first part of what the loop had to copy, in order and each once, behind what it held
    -- before, the count of processed rows has grown by that many, and `True` says that all of them
    -- are there.
    pub copy_loop-Copied :
        (fuel offset done retry_count : ℕ) (s : State W)
        → Copied offset
            (contents s.world, s.total)
            (copy_loop self table mappings fuel offset done retry_count s)
    unfolding copy_loop
    copy_loop-Copied zero offset done k s = halted offset (view s) out_of_fuel s refl (λ y. cc)
    copy_loop-Copied (suc fuel) offset done k s =
        let again = copy_loop self table mappings fuel in
        bind_elim (Copied offset (view s)) (caught (fetch self table mappings offset))
          (after_fetch self table mappings again offset done k) s
          (λ r e. rw (← (fetch-Keeps offset).at s) (
            after_fetch-Copied again (copy_loop-Copied fuel) offset done k r _
              (fetched_batch offset s r e)))
          (λ r n _.
            halted offset (view s) r _ ((fetch-Keeps offset).at s)
              (λ y. absurd (failed-ne self table mappings contents rows r n y)))
