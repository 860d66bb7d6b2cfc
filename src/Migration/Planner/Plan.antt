-- ===== src/Migration/Planner/Plan.antt =====
-- What a plan that `build_plan` returns says of the tables that were asked for.
use migrate_app_backend.Base.{
  ℕ, ◌+◌, String, ◌≡◌, refl, sym, ap, Option, true, false, List, [], ◌∷◌, ◌++◌, All, In, All-append,
  All-map, arith, Exception, Result, ok, raise, out_of_fuel, is_ok, ◌⊎◌, inl, inr,
}
use mathlib.Core.List.{append-nil, append_assoc}
use migrate_app_backend.Base.Effect.{caught, Caught, returned, raised, bind-eq-ok, ok-injective}
use migrate_app_backend.Schemas.Migration.{
  TableSchema, MigrationTablePlan, MigrationPlan, TableStatus,
}
use migrate_app_backend.Migration.Value.{Python}
use migrate_app_backend.Migration.Validator.{validate_schema_compatibility}
use migrate_app_backend.Migration.Mapper.{build_column_mappings}
use migrate_app_backend.Providers.{Provider}
use migrate_app_backend.Migration.Planner.{
  unread_source, fatal, pending_table, skipped_table, plan_read, validate_table, add_warnings,
  add_table, after_validation, read_destination, plan_table, plan_tables, build_plan,
}

-- An entry is pending with the mappings of its schemas, and these passed validation; or it is
-- skipped with no mappings, and they did not.
abbrev pub IsJustified : MigrationTablePlan → Type 0
IsJustified t =
    (t.row_count ≡ t.source_schema.row_count)
    × ((t.status ≡ TableStatus.pending)
          × (is_ok (validate_schema_compatibility t.source_schema t.destination_schema) ≡ true)
          × (t.column_mappings ≡ build_column_mappings t.source_schema t.destination_schema)
        ⊎ (t.status ≡ TableStatus.skipped)
          × (is_ok (validate_schema_compatibility t.source_schema t.destination_schema) ≡ false)
          × (t.column_mappings ≡ []))

abbrev pub pending_rows : MigrationTablePlan → ℕ
pending_rows t = elim t.status [ TableStatus.pending ↦ t.row_count | TableStatus.skipped ↦ 0 ]

-- the rows of the tables that are to be copied
abbrev pub rows_to_copy : List MigrationTablePlan → ℕ
rows_to_copy [] = 0
rows_to_copy (t ∷ ts) = pending_rows t + rows_to_copy ts

rows_to_copy-append :
    (xs ys : List MigrationTablePlan) → rows_to_copy (xs ++ ys) ≡ rows_to_copy xs + rows_to_copy ys
rows_to_copy-append [] ys = omega arith
rows_to_copy-append (x ∷ xs) ys = omega (arith, rows_to_copy-append xs ys)

-- A table that was asked for has an entry, or a warning says that its schema could not be read.
abbrev pub IsAccounted : MigrationPlan → String → Type 0
IsAccounted plan name =
    ((t : MigrationTablePlan) × In t plan.tables × (t.table_name ≡ name))
    ⊎ ((exc : Exception) × In (unread_source name exc) plan.warnings)

pub record IsPlanFor (names : List String) (plan : MigrationPlan) : Type 0 where
  pub justified : All IsJustified plan.tables
  pub counted : plan.total_rows ≡ rows_to_copy plan.tables
  pub accounted : All (IsAccounted plan) names

pub In-append_left : {A : Type 0} (a : A) (xs ys : List A) → In a xs → In a (xs ++ ys)
In-append_left a [] ys i = absurd i
In-append_left a (x ∷ xs) ys (inl e) = inl e
In-append_left a (x ∷ xs) ys (inr i) = inr (In-append_left a xs ys i)

pub In-append_last : {A : Type 0} (a : A) (xs : List A) → In a (xs ++ a ∷ [])
In-append_last a [] = inl refl
In-append_last a (x ∷ xs) = inr (In-append_last a xs)

-- What one table adds to a plan.
data Extends (name : String) (plan plan' : MigrationPlan) : Type 0 where
  unread :
      (exc : Exception)
      → plan' ≡ add_warnings (unread_source name exc ∷ []) plan
      → Extends name plan plan'
  planned :
      (t : MigrationTablePlan) (ws ws' : List String)
      → IsJustified t
      → t.table_name ≡ name
      → plan' ≡ add_table t (pending_rows t) (add_warnings ws' (add_warnings ws plan))
      → Extends name plan plan'

module _ (name : String) (src : TableSchema) (dst : Option TableSchema) (ws : List String)
    (plan plan' : MigrationPlan) where
  after_validation-Extends :
      (r : Result (List String))
      → validate_schema_compatibility src dst ≡ r
      → after_validation name src dst r (add_warnings ws plan) ≡ ok plan'
      → Extends name plan plan'
  unfolding after_validation
  after_validation-Extends (ok ws') v h =
      planned (pending_table name src dst) ws ws' (refl, inl (refl, ap is_ok v, refl)) refl
        (ground arith)
  after_validation-Extends (raise (Exception.schema_incompatible m)) v h =
      planned (skipped_table name src dst) ws (fatal name (Exception.schema_incompatible m) ∷ [])
        (refl, inr (refl, ap is_ok v, refl)) refl (ground arith)
  after_validation-Extends (raise (Exception.value_error m)) v h = cc
  after_validation-Extends (raise (Exception.not_implemented m)) v h = cc
  after_validation-Extends (raise (Exception.type_error m)) v h = cc
  after_validation-Extends (raise (Exception.http_not_found m)) v h = cc
  after_validation-Extends (raise (Exception.soft_time_limit m)) v h = cc
  after_validation-Extends (raise (Exception.other_error m)) v h = cc
  after_validation-Extends out_of_fuel v h = cc

Extends-IsPlanFor :
    {name : String} {plan plan' : MigrationPlan} (names : List String)
    → Extends name plan plan'
    → IsPlanFor names plan
    → IsPlanFor (names ++ name ∷ []) plan'
Extends-IsPlanFor {name} {plan} names (unread exc e) h = rw e (record {
  justified = h.justified;
  counted = h.counted;
  accounted =
      All-append _ names (name ∷ []) (All-map _ _ later names h.accounted)
        (inr (exc, In-append_last _ plan.warnings), tt);
})
  where
    later :
        (n : String)
        → IsAccounted plan n
        → IsAccounted (add_warnings (unread_source name exc ∷ []) plan) n
    later n (inl known) = inl known
    later n (inr (x, i)) = inr (x, In-append_left _ plan.warnings _ i)
Extends-IsPlanFor {name} {plan} names (planned t ws ws' j n e) h = rw e (record {
  justified = All-append IsJustified plan.tables (t ∷ []) h.justified (j, tt);
  counted = omega (arith, h.counted, rows_to_copy-append plan.tables (t ∷ []));
  accounted =
      All-append _ names (name ∷ []) (All-map _ _ later names h.accounted)
        (inl (t, In-append_last t plan.tables, n), tt);
})
  where
    later :
        (n : String)
        → IsAccounted plan n
        → IsAccounted (add_table t (pending_rows t) (add_warnings ws' (add_warnings ws plan))) n
    later n (inl (u, i, named)) = inl (u, In-append_left u plan.tables (t ∷ []) i, named)
    later n (inr (x, i)) =
        inr (x, In-append_left _ (plan.warnings ++ ws) ws' (In-append_left _ plan.warnings ws i))

module _ {P : Python} {W : Type 0} (source destination : Provider P W) where
  plan_read-Extends :
      (name : String) (plan plan' : MigrationPlan) (read : Caught TableSchema) (w w' : W)
      → plan_read source destination name plan read w ≡ (ok plan', w')
      → Extends name plan plan'
  unfolding plan_read
  plan_read-Extends name plan plan' (raised exc) w w' h =
      unread exc (sym (ok-injective (ap (λ (p : Result MigrationPlan × W). p.0) h)))
  plan_read-Extends name plan plan' (returned src) w w' h =
      let (found, t, e, h') =
        bind-eq-ok (read_destination source destination name)
          (validate_table source destination name plan src) w w' plan' h in
      after_validation-Extends name src found.0 found.1 plan plan'
        (validate_schema_compatibility src found.0) refl
        (ap (λ (p : Result MigrationPlan × W). p.0) h')

  plan_table-Extends :
      (name : String) (plan plan' : MigrationPlan) (w w' : W)
      → plan_table source destination name plan w ≡ (ok plan', w')
      → Extends name plan plan'
  unfolding plan_table
  plan_table-Extends name plan plan' w w' h =
      let (read, t, e, h') =
        bind-eq-ok (caught (source.get_table_schema name)) (plan_read source destination name plan)
          w w' plan' h in
      plan_read-Extends name plan plan' read t w' h'

  plan_tables-IsPlanFor :
      (names seen : List String) (plan plan' : MigrationPlan) (w w' : W)
      → IsPlanFor seen plan
      → plan_tables source destination names plan w ≡ (ok plan', w')
      → IsPlanFor (seen ++ names) plan'
  unfolding plan_tables
  plan_tables-IsPlanFor [] seen plan plan' w w' v h =
      rw (append-nil seen, ← ok-injective (ap (λ (p : Result MigrationPlan × W). p.0) h)) v
  plan_tables-IsPlanFor (name ∷ names) seen plan plan' w w' v h =
      let (mid, t, e, h') =
        bind-eq-ok (plan_table source destination name plan) (plan_tables source destination names)
          w w' plan' h in
      rw (← append_assoc seen (name ∷ []) names) (
        plan_tables-IsPlanFor names (seen ++ name ∷ []) mid plan' t w'
          (Extends-IsPlanFor seen (plan_table-Extends name plan mid w t e) v) h')

  -- A plan that `build_plan` returns accounts for every table that was asked for, by an entry or by
  -- a warning that its schema could not be read; each entry is pending, with the mappings that
  -- `build_column_mappings` gives, exactly when its schemas passed validation, and skipped with no
  -- mappings otherwise; and `total_rows` is the sum of the row counts of the pending tables.
  pub build_plan-IsPlanFor :
      (names : List String) (plan : MigrationPlan) (w w' : W)
      → build_plan source destination names w ≡ (ok plan, w')
      → IsPlanFor names plan
  unfolding build_plan
  build_plan-IsPlanFor names plan w w' h =
      plan_tables-IsPlanFor names [] (record { tables = []; total_rows = 0; warnings = [] }) plan w
        w' (record { justified = tt; counted = refl; accounted = tt }) h
