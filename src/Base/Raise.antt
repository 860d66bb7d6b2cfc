-- ===== src/Base/Raise.antt =====
-- Chains of pure steps that may raise, for `do` blocks.
use mathlib.Core.Path.{◌≡◌, refl}
use mathlib.Core.Logic.{◌≢◌}
use migrate_app_backend.Base.Effect.{Result, ok, raise, out_of_fuel}

module _ {ℓ κ} {A : Type ℓ} {B : Type κ} where
  infixl 5 ◌>>=◌
  abbrev pub ◌>>=◌ : Result A → (A → Result B) → Result B
  out_of_fuel >>= next = out_of_fuel
  raise exc >>= next = raise exc
  ok value >>= next = next value

-- A chain that returned: its first step did, and so did what follows.
pub >>=-eq-ok :
    {A B : Type 0} (step : Result A) (next : A → Result B) {end : B}
    → (step >>= next) ≡ ok end
    → (value : A) × (step ≡ ok value) × (next value ≡ ok end)
>>=-eq-ok out_of_fuel next h = cc
>>=-eq-ok (raise exc) next h = cc
>>=-eq-ok (ok value) next h = (value, refl, h)

-- A chain comes back if its steps do.
pub >>=-ne :
    {A B : Type 0} (step : Result A) (next : A → Result B)
    → step ≢ out_of_fuel
    → ((value : A) → next value ≢ out_of_fuel)
    → (step >>= next) ≢ out_of_fuel
>>=-ne (ok value) next h k = k value
>>=-ne (raise exc) next h k = λ p. cc
>>=-ne out_of_fuel next h k = absurd (h refl)
