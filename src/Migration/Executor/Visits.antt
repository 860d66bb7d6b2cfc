-- ===== src/Migration/Executor/Visits.antt =====
-- The tables of a plan that a run came to, in order, and where its results put each.
use mathlib.Core.List.{append-nil, append_assoc}
use mathlib.Core.Path.{subst}
use mathlib.Core.Bool.{true≢false}
use migrate_app_backend.Base.{
  ℕ, ◌≤◌, String, ◌≡◌, refl, ◌≢◌, sym, ap, ◌∙◌, Bool, true, false, List, [], ◌∷◌, ◌++◌, length,
  arith,
}
use migrate_app_backend.Schemas.Migration.{MigrationTablePlan, TableStatus}
use migrate_app_backend.Migration.Executor.{Results}

abbrev pub skipped_names : List MigrationTablePlan → List String
skipped_names [] = []
skipped_names (t ∷ ts) = elim t.status [
  | TableStatus.skipped ↦ t.table_name ∷ skipped_names ts
  | TableStatus.pending ↦ skipped_names ts
]

abbrev pub pending_names : List MigrationTablePlan → List String
pending_names [] = []
pending_names (t ∷ ts) = elim t.status [
  | TableStatus.pending ↦ t.table_name ∷ pending_names ts
  | TableStatus.skipped ↦ pending_names ts
]

-- The third list is the first two, interleaved.
pub data Merge : List String → List String → List String → Type 0 where
  none : Merge [] [] []
  first : {x : String} {xs ys zs : List String} → Merge xs ys zs → Merge (x ∷ xs) ys (x ∷ zs)
  second : {y : String} {xs ys zs : List String} → Merge xs ys zs → Merge xs (y ∷ ys) (y ∷ zs)

-- The tables of a plan that a run came to, and where it put each.
pub record Visits (continue_on_error : Bool) (tables : List MigrationTablePlan)
    (before after : Results) : Type 0 where
  pub visited : List MigrationTablePlan
  pub unvisited : List MigrationTablePlan
  pub completed : List String
  pub failed : List String
  pub split : tables ≡ visited ++ unvisited
  pub completed_tables : after.completed_tables ≡ before.completed_tables ++ completed
  pub failed_tables : after.failed_tables ≡ before.failed_tables ++ failed
  pub skipped_tables : after.skipped_tables ≡ before.skipped_tables ++ skipped_names visited
  pub each_once : Merge completed failed (pending_names visited)
  pub stopped : unvisited ≢ [] → (continue_on_error ≡ false) × (failed ≢ [])
  pub one_failure : continue_on_error ≡ false → length failed ≤ 1

names_of_skipped :
    (t : MigrationTablePlan) (ts : List MigrationTablePlan)
    → t.status ≡ TableStatus.skipped
    → (skipped_names (t ∷ ts) ≡ t.table_name ∷ skipped_names ts)
      × (pending_names (t ∷ ts) ≡ pending_names ts)
names_of_skipped t ts e = (ground arith, ground arith)

names_of_pending :
    (t : MigrationTablePlan) (ts : List MigrationTablePlan)
    → t.status ≡ TableStatus.pending
    → (skipped_names (t ∷ ts) ≡ skipped_names ts)
      × (pending_names (t ∷ ts) ≡ t.table_name ∷ pending_names ts)
names_of_pending t ts e = (ground arith, ground arith)

module _ {c : Bool} {before after : Results} (t : MigrationTablePlan)
    (tables : List MigrationTablePlan) where
  pub visit_skipped :
      t.status ≡ TableStatus.skipped
      → Visits c tables
          (record before { skipped_tables = before.skipped_tables ++ t.table_name ∷ [] })
          after
      → Visits c (t ∷ tables) before after
  visit_skipped e v =
      let (s, p) = names_of_skipped t v.visited e in
      record {
        visited = t ∷ v.visited;
        unvisited = v.unvisited;
        completed = v.completed;
        failed = v.failed;
        split = ap (λ l. t ∷ l) v.split;
        completed_tables = v.completed_tables;
        failed_tables = v.failed_tables;
        skipped_tables =
            v.skipped_tables
            ∙ append_assoc before.skipped_tables (t.table_name ∷ []) (skipped_names v.visited)
            ∙ ap (λ l. before.skipped_tables ++ l) (sym s);
        each_once = subst (Merge v.completed v.failed) (sym p) v.each_once;
        stopped = v.stopped;
        one_failure = v.one_failure;
      }

  pub visit_completed :
      t.status ≡ TableStatus.pending
      → Visits c tables
          (record before { completed_tables = before.completed_tables ++ t.table_name ∷ [] })
          after
      → Visits c (t ∷ tables) before after
  visit_completed e v =
      let (s, p) = names_of_pending t v.visited e in
      record {
        visited = t ∷ v.visited;
        unvisited = v.unvisited;
        completed = t.table_name ∷ v.completed;
        failed = v.failed;
        split = ap (λ l. t ∷ l) v.split;
        completed_tables =
            v.completed_tables
            ∙ append_assoc before.completed_tables (t.table_name ∷ []) v.completed;
        failed_tables = v.failed_tables;
        skipped_tables = v.skipped_tables ∙ ap (λ l. before.skipped_tables ++ l) (sym s);
        each_once = subst (Merge (t.table_name ∷ v.completed) v.failed) (sym p) (first v.each_once);
        stopped = v.stopped;
        one_failure = v.one_failure;
      }

  pub visit_failed :
      t.status ≡ TableStatus.pending
      → c ≡ true
      → Visits c tables
          (record before { failed_tables = before.failed_tables ++ t.table_name ∷ [] })
          after
      → Visits c (t ∷ tables) before after
  visit_failed e going v =
      let (s, p) = names_of_pending t v.visited e in
      record {
        visited = t ∷ v.visited;
        unvisited = v.unvisited;
        completed = v.completed;
        failed = t.table_name ∷ v.failed;
        split = ap (λ l. t ∷ l) v.split;
        completed_tables = v.completed_tables;
        failed_tables =
            v.failed_tables ∙ append_assoc before.failed_tables (t.table_name ∷ []) v.failed;
        skipped_tables = v.skipped_tables ∙ ap (λ l. before.skipped_tables ++ l) (sym s);
        each_once =
            subst (Merge v.completed (t.table_name ∷ v.failed)) (sym p) (second v.each_once);
        stopped = λ n. absurd (true≢false (sym going ∙ (v.stopped n).0));
        one_failure = λ n. absurd (true≢false (sym going ∙ n));
      }

  pub visit_last :
      t.status ≡ TableStatus.pending
      → c ≡ false
      → after ≡ record before { failed_tables = before.failed_tables ++ t.table_name ∷ [] }
      → Visits c (t ∷ tables) before after
  visit_last e stop same =
      let (s, p) = names_of_pending t [] e in
      record {
        visited = t ∷ [];
        unvisited = tables;
        completed = [];
        failed = t.table_name ∷ [];
        split = refl;
        completed_tables =
            ap (λ (r : Results). r.completed_tables) same
            ∙ sym (append-nil before.completed_tables);
        failed_tables = ap (λ (r : Results). r.failed_tables) same;
        skipped_tables =
            ap (λ (r : Results). r.skipped_tables) same
            ∙ sym (append-nil before.skipped_tables)
            ∙ ap (λ l. before.skipped_tables ++ l) (sym s);
        each_once = subst (Merge [] (t.table_name ∷ [])) (sym p) (second none);
        stopped = λ n. (stop, λ q. cc);
        one_failure = λ n. omega arith;
      }

pub with_total :
    {c : Bool} {tables : List MigrationTablePlan} {before after : Results} (n : ℕ)
    → Visits c tables before after
    → Visits c tables before (record after { total_rows_migrated = n })
with_total n v = record {
  visited = v.visited;
  unvisited = v.unvisited;
  completed = v.completed;
  failed = v.failed;
  split = v.split;
  completed_tables = v.completed_tables;
  failed_tables = v.failed_tables;
  skipped_tables = v.skipped_tables;
  each_once = v.each_once;
  stopped = v.stopped;
  one_failure = v.one_failure;
}

pub visit_none : {c : Bool} (results after : Results) → results ≡ after → Visits c [] results after
visit_none results after e = record {
  visited = [];
  unvisited = [];
  completed = [];
  failed = [];
  split = refl;
  completed_tables =
      ap (λ (r : Results). r.completed_tables) (sym e) ∙ sym (append-nil results.completed_tables);
  failed_tables =
      ap (λ (r : Results). r.failed_tables) (sym e) ∙ sym (append-nil results.failed_tables);
  skipped_tables =
      ap (λ (r : Results). r.skipped_tables) (sym e) ∙ sym (append-nil results.skipped_tables);
  each_once = none;
  stopped = λ n. absurd (n refl);
  one_failure = λ n. omega arith;
}
