-- ===== src/Providers/Streams.antt =====
-- `stream_table` against `chunk_list` of app/utils/helpers.py.
use migrate_app_backend.Base.{
  String, Option, some, ◌≡◌, refl, ap, ◌∙◌, ℕ, zero, suc, ◌+◌, ◌≤◌, ◌<◌, List, [], ◌∷◌, take, drop,
  length, drop-drop, Result, ok, raise, out_of_fuel, arith,
}
use migrate_app_backend.Base.Effect.{Act, lift, continue, ◌>>=◌}
use migrate_app_backend.Base.Calls.{Keeps}
use migrate_app_backend.Utils.Helpers.{chunks, chunk_list}
use migrate_app_backend.Utils.Helpers.Laws.{length-drop}
use migrate_app_backend.Migration.Value.{Python, Row}
use migrate_app_backend.Providers.Sql.{Driver}
use migrate_app_backend.Providers.Sqlite.{ColumnInfo, fetch_batch, stream_table}
use migrate_app_backend.Providers.Stream.{yielded, stream_from, for_each}

module _ {A : Type 0} where
  chunks_enough :
      (r k n : ℕ) (xs : List A)
      → length xs ≤ r
      → length xs ≤ k
      → chunks r (suc n) xs ≡ chunks k (suc n) xs
  unfolding chunks
  chunks_enough zero zero n xs h j = refl
  chunks_enough zero (suc k) n [] h j = refl
  chunks_enough zero (suc k) n (x ∷ xs) h j = absurd (omega arith)
  chunks_enough (suc r) zero n [] h j = refl
  chunks_enough (suc r) zero n (x ∷ xs) h j = absurd (omega arith)
  chunks_enough (suc r) (suc k) n [] h j = refl
  chunks_enough (suc r) (suc k) n (x ∷ xs) h j =
      ap (λ l. take (suc n) (x ∷ xs) ∷ l)
        (chunks_enough r k n (drop n xs) (omega (arith, length-drop n xs))
          (omega (arith, length-drop n xs)))

-- A source whose `content` is served by offset and limit, and read without a change.
pub record IsServed {R W : Type 0} (content : W → List R) (batch_size : ℕ)
    (fetch : ℕ → Act W (List R)) : Type 0 where
  pub serves :
      (offset : ℕ) (s : W) → fetch offset s ≡ (ok (take batch_size (drop offset (content s))), s)

module _ {R W : Type 0} (content : W → List R) (n : ℕ) (fetch : ℕ → Act W (List R))
    (each : List R → Act W (Unit {0})) (h : IsServed content (suc n) fetch)
    (k : (batch : List R) → Keeps content (each batch)) where
  continue-eq :
      (r : Result (Unit {0})) (f g : Unit {0} → Act W (Unit {0})) (s : W)
      → f tt s ≡ g tt s
      → continue r f s ≡ continue r g s
  continue-eq (ok tt) f g s e = e
  continue-eq (raise exc) f g s e = refl
  continue-eq out_of_fuel f g s e = refl

  round :
      (fuel offset : ℕ) (rows : List R) (s : W)
      → drop offset (content s) ≡ rows
      → stream_from fetch each (suc n) (suc fuel) offset s
        ≡ yielded each (stream_from fetch each (suc n) fuel (offset + suc n)) (take (suc n) rows) s
  unfolding stream_from
  round fuel offset rows s e =
      let again = yielded each (stream_from fetch each (suc n) fuel (offset + suc n)) in
      (λ i. continue (h.serves offset s i).0 again (h.serves offset s i).1)
      ∙ ap (λ l. again (take (suc n) l) s) e

  stream_from-chunks :
      (fuel offset : ℕ) (rows : List R) (s : W)
      → drop offset (content s) ≡ rows
      → length rows ≤ fuel
      → stream_from fetch each (suc n) (suc fuel) offset s
        ≡ for_each each (chunks fuel (suc n) rows) s
  unfolding stream_from yielded for_each chunks
  stream_from-chunks zero offset [] s e j = round zero offset [] s e
  stream_from-chunks zero offset (x ∷ xs) s e j = absurd (omega arith)
  stream_from-chunks (suc fuel) offset [] s e j = round (suc fuel) offset [] s e
  stream_from-chunks (suc fuel) offset (x ∷ xs) s e j =
      let batch = x ∷ take n xs in
      round (suc fuel) offset (x ∷ xs) s e
      ∙ continue-eq (each batch s).0
          (λ _. stream_from fetch each (suc n) (suc fuel) (offset + suc n))
          (λ _. for_each each (chunks fuel (suc n) (drop n xs))) (each batch s).1
          (stream_from-chunks fuel (offset + suc n) (drop n xs) (each batch s).1
            (ap (drop (offset + suc n)) ((k batch).at s)
              ∙ drop-drop offset (suc n) (content s)
              ∙ ap (drop (suc n)) e)
            (omega (arith, length-drop n xs)))

  stream_from-chunk_list :
      (fuel : ℕ) (s : W)
      → length (content s) < fuel
      → stream_from fetch each (suc n) fuel 0 s
        ≡ (lift (chunk_list (content s) (suc n)) >>= for_each each) s
  unfolding chunk_list
  stream_from-chunk_list zero s j = absurd (omega arith)
  stream_from-chunk_list (suc fuel) s j =
      stream_from-chunks fuel 0 (content s) s refl (omega arith)
      ∙ ap (λ l. for_each each l s)
          (chunks_enough fuel (length (content s)) n (content s) (omega arith) (omega arith))

-- For a connection whose `fetch_batch` serves the content of a table by offset and limit, and a caller that
-- leaves that content alone: streaming the table in batches of a size that is not 0, with more fuel
-- than it has rows, calls `each` on the pieces that `chunk_list` makes of the content, in order, and
-- comes back as these calls do.
pub stream_table-chunk_list :
    {P : Python} {W : Type 0} (conn : Driver P W ColumnInfo) (table_name : String)
    (columns : Option (List String)) (n : ℕ) (content : W → List (Row P))
    (each : List (Row P) → Act W (Unit {0})) (fuel : ℕ) (s : W)
    → IsServed content (suc n) (λ offset. fetch_batch (some conn) table_name offset (suc n) columns)
    → ((batch : List (Row P)) → Keeps content (each batch))
    → length (content s) < fuel
    → stream_table (some conn) table_name (suc n) columns each fuel s
      ≡ (lift (chunk_list (content s) (suc n)) >>= for_each each) s
unfolding stream_table
stream_table-chunk_list conn table_name columns n content each fuel s h k =
    stream_from-chunk_list content n _ each h k fuel s
