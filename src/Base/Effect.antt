-- ===== src/Base/Effect.antt =====
-- Exceptions, and methods that act on a state and may raise. What was written before a raise stays
-- written. `out_of_fuel` is no exception: it says that a loop's fuel ran out, and nothing catches it.
use mathlib.Core.Path.{◌≡◌, refl}
use mathlib.Core.Bool.{Bool, true, false}
use mathlib.Core.Path.{ap}
use Prim.Native.String.{String}

-- The exception classes that the program tells apart, each with the text of `str(exc)`.
pub data Exception : Type 0 where
  value_error not_implemented type_error http_not_found schema_incompatible soft_time_limit
        other_error :
      String → Exception

abbrev pub message : Exception → String
message (Exception.value_error m) = m
message (Exception.not_implemented m) = m
message (Exception.type_error m) = m
message (Exception.http_not_found m) = m
message (Exception.schema_incompatible m) = m
message (Exception.soft_time_limit m) = m
message (Exception.other_error m) = m

pub data Result {ℓ} (A : Type ℓ) : Type ℓ where
  ok : A → Result A
  raise : Exception → Result A
  out_of_fuel : Result A

abbrev pub is_ok {ℓ} : {A : Type ℓ} → Result A → Bool
is_ok (ok a) = true
is_ok (raise e) = false
is_ok out_of_fuel = false

pub ok_of_is_ok {ℓ} : {A : Type ℓ} (r : Result A) → is_ok r ≡ true → (a : A) × (r ≡ ok a)
ok_of_is_ok (ok a) h = (a, refl)
ok_of_is_ok (raise e) h = cc
ok_of_is_ok out_of_fuel h = cc

pub ok-injective : {A : Type 0} {a b : A} → ok a ≡ ok b → a ≡ b
ok-injective h = cc

abbrev pub Act : Type 0 → Type 0 → Type 0
Act S A = S → Result A × S

module _ {S A : Type 0} where
  abbrev pub pure : A → Act S A
  pure a s = (ok a, s)

  abbrev pub throw : Exception → Act S A
  throw e s = (raise e, s)

  abbrev pub lift : Result A → Act S A
  lift r s = (r, s)

  abbrev pub gets : (S → A) → Act S A
  gets f s = (ok (f s), s)

-- What a `try` block came to.
pub data Caught (A : Type 0) : Type 0 where
  returned : A → Caught A
  raised : Exception → Caught A

abbrev pub caught_result : {A : Type 0} → Result A → Result (Caught A)
caught_result (ok a) = ok (Caught.returned a)
caught_result (raise e) = ok (Caught.raised e)
caught_result out_of_fuel = out_of_fuel

-- `try: m  except Exception as exc: …`: the outcome, on which the caller goes on
abbrev pub caught : {S A : Type 0} → Act S A → Act S (Caught A)
caught m s = let (r, s') = m s in (caught_result r, s')

abbrev pub unless : {S : Type 0} → Bool → Act S (Unit {0}) → Act S (Unit {0})
unless true m = pure tt
unless false m = m

abbrev pub when : {S : Type 0} → Bool → Act S (Unit {0}) → Act S (Unit {0})
when true m = m
when false m = pure tt

abbrev pub modify : {S : Type 0} → (S → S) → Act S (Unit {0})
modify f s = (ok tt, f s)

module _ {S A B : Type 0} where
  abbrev pub continue : Result A → (A → Act S B) → Act S B
  continue (ok a) f s = f a s
  continue (raise e) f s = (raise e, s)
  continue out_of_fuel f s = (out_of_fuel, s)

  infixl 5 ◌>>=◌ ◌>>◌
  abbrev pub ◌>>=◌ : Act S A → (A → Act S B) → Act S B
  ◌>>=◌ m f s = let (r, s') = m s in continue r f s'

  abbrev pub ◌>>◌ : Act S A → Act S B → Act S B
  m >> n = m >>= λ _. n

module _ {S A B : Type 0} where
  continue-eq-ok :
      (r : Result A) (f : A → Act S B) (s s' : S) (b : B)
      → continue r f s ≡ (ok b, s')
      → (a : A) × (r ≡ ok a) × (f a s ≡ (ok b, s'))
  continue-eq-ok (ok a) f s s' b h = (a, refl, h)
  continue-eq-ok (raise e) f s s' b h = cc (ap (λ (p : Result B × S). p.0) h)
  continue-eq-ok out_of_fuel f s s' b h = cc (ap (λ (p : Result B × S). p.0) h)

  -- Inversion of a chain that returned.
  pub bind-eq-ok :
      (m : Act S A) (f : A → Act S B) (s s' : S) (b : B)
      → (m >>= f) s ≡ (ok b, s')
      → (a : A) × (t : S) × (m s ≡ (ok a, t)) × (f a t ≡ (ok b, s'))
  bind-eq-ok m f s s' b h =
      let (a, e, h') = continue-eq-ok (m s).0 f (m s).1 s' b h in
      (a, (m s).1, (λ i. (e i, (m s).1)), h')
