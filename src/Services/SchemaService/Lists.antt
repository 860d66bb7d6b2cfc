-- ===== src/Services/SchemaService/Lists.antt =====
-- app/services/schema_service.py: a table that cannot be counted is listed all the same.
use migrate_app_backend.Base.{
  String, List, [], ◌∷◌, map, Result, ok, raise, out_of_fuel, ◌≡◌, ◌≢◌, refl, ap,
}
use migrate_app_backend.Base.Effect.{Caught, caught_result, returned, raised}
use migrate_app_backend.Base.Calls.{Terminates}
use migrate_app_backend.Migration.Value.{Python}
use migrate_app_backend.Providers.{Provider}
use migrate_app_backend.Services.SchemaService.{TableInfo, count_of, counted}

caught-returns :
    {A : Type 0} (r : Result A) → r ≢ out_of_fuel → (c : Caught A) × (caught_result r ≡ ok c)
caught-returns (ok a) h = (returned a, refl)
caught-returns (raise e) h = (raised e, refl)
caught-returns out_of_fuel h = absurd (h refl)

module _ {P : Python} {W : Type 0} (provider : Provider P W) where
  -- If each count comes back, with a number or an exception, then every table is listed, once and in
  -- its place, whichever of the counts raise.
  pub counted_all :
      ((name : String) → Terminates (provider.get_row_count name))
      → (names : List String) (w : W)
      → (tables : List TableInfo) × ((counted provider names w).0 ≡ ok tables)
        × (map (λ t. t.name) tables ≡ names)
  unfolding counted
  counted_all h [] w = ([], refl, refl)
  counted_all h (name ∷ names) w =
      let (c, e) = caught-returns (provider.get_row_count name w).0 ((h name).at w) in
      let (tables, e', same) = counted_all h names (provider.get_row_count name w).1 in
      (record { name = name; rows = count_of c } ∷ tables, rw (e, e') refl, ap (λ l. name ∷ l) same)
