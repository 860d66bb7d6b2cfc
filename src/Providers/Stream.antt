-- ===== src/Providers/Stream.antt =====
-- The loop of `stream_table`, which the providers in app/providers share word for word. `each` is
-- what the caller does with a batch before it asks for the next one.
use migrate_app_backend.Base.{ℕ, zero, suc, ◌+◌, List, [], ◌∷◌, out_of_fuel}
use migrate_app_backend.Base.Effect.{Act, pure, lift, ◌>>=◌, ◌>>◌}

-- `if not batch: break`, or `yield batch` and a further round
unfoldable pub yielded :
    {R W : Type 0} → (List R → Act W (Unit {0})) → Act W (Unit {0}) → List R → Act W (Unit {0})
yielded each again [] = pure tt
yielded each again (row ∷ rows) = each (row ∷ rows) >> again

-- the loop, with a round of fuel for each batch
unfoldable pub stream_from :
    {R W : Type 0}
    → (fetch : ℕ → Act W (List R)) → (each : List R → Act W (Unit {0}))
    → (batch_size fuel offset : ℕ) → Act W (Unit {0})
unfolding yielded
stream_from fetch each batch_size zero offset = lift out_of_fuel
stream_from fetch each batch_size (suc fuel) offset = do
  batch ← fetch offset
  yielded each (stream_from fetch each batch_size fuel (offset + batch_size)) batch

-- `async for batch in …: each(batch)`
unfoldable pub for_each :
    {R W : Type 0} → (List R → Act W (Unit {0})) → List (List R) → Act W (Unit {0})
for_each each [] = pure tt
for_each each (batch ∷ batches) = do each batch; for_each each batches
