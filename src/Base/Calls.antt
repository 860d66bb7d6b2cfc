-- ===== src/Base/Calls.antt =====
-- What can be said of a call wherever it is made, with a rule for each way to build one: that it
-- comes back, that it comes back with a value, that it leaves a view of the state alone.
use mathlib.Core.Path.{◌≡◌, refl, ◌∙◌}
use mathlib.Core.Logic.{◌≢◌}
use mathlib.Core.Bool.{Bool, true, false}
use migrate_app_backend.Base.Effect.{
  Exception, Result, ok, raise, out_of_fuel, is_ok, Act, pure, lift, caught, Caught, caught_result,
  continue, when, unless, ◌>>=◌,
}

-- It comes back with a value.
pub record Returns {S A : Type 0} (m : Act S A) : Type 0 where
  pub at : (s : S) → is_ok (m s).0 ≡ true

-- It comes back, with a value or an exception.
pub record Terminates {S A : Type 0} (m : Act S A) : Type 0 where
  pub at : (s : S) → (m s).0 ≢ out_of_fuel

-- However it ends, `view` of the state is as before.
pub record Keeps {S A X : Type 0} (view : S → X) (m : Act S A) : Type 0 where
  pub at : (s : S) → view (m s).1 ≡ view s

continue-is_ok :
    {S A B : Type 0} (r : Result A) (f : A → Act S B) (s : S)
    → is_ok r ≡ true
    → ((a : A) → Returns (f a))
    → is_ok (continue r f s).0 ≡ true
continue-is_ok (ok a) f s h k = (k a).at s
continue-is_ok (raise e) f s h k = cc
continue-is_ok out_of_fuel f s h k = cc

continue-ne :
    {S A B : Type 0} (r : Result A) (f : A → Act S B) (s : S)
    → r ≢ out_of_fuel
    → ((a : A) → r ≡ ok a → (f a s).0 ≢ out_of_fuel)
    → (continue r f s).0 ≢ out_of_fuel
continue-ne (ok a) f s h k = k a refl
continue-ne (raise e) f s h k = λ p. cc
continue-ne out_of_fuel f s h k = absurd (h refl)

continue-view :
    {S A B X : Type 0} (view : S → X) (r : Result A) (f : A → Act S B) (s : S)
    → ((a : A) → Keeps view (f a))
    → view (continue r f s).1 ≡ view s
continue-view view (ok a) f s k = (k a).at s
continue-view view (raise e) f s k = refl
continue-view view out_of_fuel f s k = refl

caught-is_ok : {A : Type 0} (r : Result A) → r ≢ out_of_fuel → is_ok (caught_result r) ≡ true
caught-is_ok (ok a) h = refl
caught-is_ok (raise e) h = refl
caught-is_ok out_of_fuel h = absurd (h refl)

caught-ne : {A : Type 0} (r : Result A) → r ≢ out_of_fuel → caught_result r ≢ out_of_fuel
caught-ne (ok a) h = λ p. cc
caught-ne (raise e) h = λ p. cc
caught-ne out_of_fuel h = absurd (h refl)

ok-ne : {A : Type 0} (r : Result A) → is_ok r ≡ true → r ≢ out_of_fuel
ok-ne (ok a) h = λ p. cc
ok-ne (raise e) h = λ p. cc
ok-ne out_of_fuel h = cc

module _ {S A : Type 0} where
  pub Returns-pure : (a : A) → Returns {S = S} (pure a)
  Returns-pure a = record { at = λ s. refl }

  pub Returns-caught : (m : Act S A) → Terminates m → Returns (caught m)
  Returns-caught m h = record { at = λ s. caught-is_ok (m s).0 (h.at s) }

  pub Returns-lift : (r : Result A) → is_ok r ≡ true → Returns {S = S} (lift r)
  Returns-lift r h = record { at = λ s. h }

  pub Terminates-of_Returns : (m : Act S A) → Returns m → Terminates m
  Terminates-of_Returns m h = record { at = λ s. ok-ne (m s).0 (h.at s) }

  pub Terminates-pure : (a : A) → Terminates {S = S} (pure a)
  Terminates-pure a = record { at = λ s p. cc }

  pub Terminates-lift : (r : Result A) → r ≢ out_of_fuel → Terminates {S = S} (lift r)
  Terminates-lift r h = record { at = λ s. h }

  pub Terminates-caught : (m : Act S A) → Terminates m → Terminates (caught m)
  Terminates-caught m h = record { at = λ s. caught-ne (m s).0 (h.at s) }

  pub Keeps-pure : {X : Type 0} (view : S → X) (a : A) → Keeps view (pure a)
  Keeps-pure view a = record { at = λ s. refl }

  pub Keeps-caught :
      {X : Type 0} (view : S → X) (m : Act S A) → Keeps view m → Keeps view (caught m)
  Keeps-caught view m h = record { at = h.at }

pub Terminates-when :
    {S : Type 0} (b : Bool) (m : Act S (Unit {0})) → Terminates m → Terminates (when b m)
Terminates-when true m h = h
Terminates-when false m h = Terminates-pure tt

pub Keeps-when :
    {S X : Type 0} (view : S → X) (b : Bool) (m : Act S (Unit {0}))
    → Keeps view m
    → Keeps view (when b m)
Keeps-when view true m h = h
Keeps-when view false m h = Keeps-pure view tt

pub Keeps-unless :
    {S X : Type 0} (view : S → X) (b : Bool) (m : Act S (Unit {0}))
    → Keeps view m
    → Keeps view (unless b m)
Keeps-unless view true m h = Keeps-pure view tt
Keeps-unless view false m h = h

pub Returns-when : {S : Type 0} (b : Bool) (m : Act S (Unit {0})) → Returns m → Returns (when b m)
Returns-when true m h = h
Returns-when false m h = Returns-pure tt

module _ {S A B : Type 0} (m : Act S A) (f : A → Act S B) where
  pub Returns-bind : Returns m → ((a : A) → Returns (f a)) → Returns (m >>= f)
  Returns-bind h k = record { at = λ s. continue-is_ok (m s).0 f (m s).1 (h.at s) k }

  pub Terminates-bind : Terminates m → ((a : A) → Terminates (f a)) → Terminates (m >>= f)
  Terminates-bind h k = record {
    at = λ s. continue-ne (m s).0 f (m s).1 (h.at s) (λ a e. (k a).at (m s).1);
  }

  -- The rest may use what `m` returned at `s`.
  pub bind-ne :
      (s : S)
      → (m s).0 ≢ out_of_fuel
      → ((a : A) → (m s).0 ≡ ok a → (f a (m s).1).0 ≢ out_of_fuel)
      → ((m >>= f) s).0 ≢ out_of_fuel
  bind-ne s = continue-ne (m s).0 f (m s).1

  pub Keeps-bind :
      {X : Type 0} (view : S → X)
      → Keeps view m
      → ((a : A) → Keeps view (f a))
      → Keeps view (m >>= f)
  Keeps-bind view h k = record { at = λ s. continue-view view (m s).0 f (m s).1 k ∙ h.at s }

pub ruleset returns_rules = (Returns-pure, Returns-caught, Returns-bind, Returns-when)

pub ruleset terminates_rules =
    (Terminates-pure, Terminates-caught, Terminates-bind, Terminates-when)

pub ruleset keeps_rules = (Keeps-pure, Keeps-caught, Keeps-bind, Keeps-when)

continue_elim :
    {S A B : Type 0} (C : Result B × S → Type 0) (r : Result A) (f : A → Act S B) (s : S)
    → ((a : A) → r ≡ ok a → C (f a s))
    → ((r' : Result B) → is_ok r' ≡ false → is_ok r ≡ false → C (r', s))
    → C (continue r f s)
continue_elim C (ok a) f s k j = k a refl
continue_elim C (raise e) f s k j = j (raise e) refl refl
continue_elim C out_of_fuel f s k j = j out_of_fuel refl refl

-- A chain: its first call returned, and the rest followed; or it did not, and nothing else was done.
pub bind_elim :
    {S A B : Type 0} (C : Result B × S → Type 0) (m : Act S A) (f : A → Act S B) (s : S)
    → ((a : A) → (m s).0 ≡ ok a → C (f a (m s).1))
    → ((r : Result B) → is_ok r ≡ false → is_ok (m s).0 ≡ false → C (r, (m s).1))
    → C ((m >>= f) s)
bind_elim C m f s = continue_elim C (m s).0 f (m s).1

pub caught_returned_is_ok :
    {A : Type 0} (r : Result A) (a : A) → caught_result r ≡ ok (Caught.returned a) → is_ok r ≡ true
caught_returned_is_ok (ok b) a h = refl
caught_returned_is_ok (raise e) a h = cc
caught_returned_is_ok out_of_fuel a h = cc

pub caught_raised_not_ok :
    {A : Type 0} (r : Result A) (e : Exception)
    → caught_result r ≡ ok (Caught.raised e)
    → is_ok r ≡ false
caught_raised_not_ok (ok b) e h = cc
caught_raised_not_ok (raise x) e h = refl
caught_raised_not_ok out_of_fuel e h = cc

pub caught-returned :
    {A : Type 0} (r : Result A) (a : A) → caught_result r ≡ ok (Caught.returned a) → r ≡ ok a
caught-returned (ok b) a h = cc
caught-returned (raise e) a h = cc
caught-returned out_of_fuel a h = cc

pub caught_not_ok : {A : Type 0} (r : Result A) → is_ok (caught_result r) ≡ false → is_ok r ≡ false
caught_not_ok (ok b) h = cc
caught_not_ok (raise e) h = refl
caught_not_ok out_of_fuel h = refl

caught_continue :
    {S A B : Type 0} (C : Result B × S → Type 0) (r : Result A) (f : Caught A → Act S B) (s : S)
    → ((c : Caught A) → caught_result r ≡ ok c → C (f c s))
    → C (out_of_fuel, s)
    → C (continue (caught_result r) f s)
caught_continue C (ok a) f s k j = k (Caught.returned a) refl
caught_continue C (raise e) f s k j = k (Caught.raised e) refl
caught_continue C out_of_fuel f s k j = j

-- What follows a `try` statement: the rest, unless the fuel ran out.
pub caught_elim :
    {S A B : Type 0} (C : Result B × S → Type 0) (m : Act S A) (f : Caught A → Act S B) (s : S)
    → ((c : Caught A) → caught_result (m s).0 ≡ ok c → C (f c (m s).1))
    → C (out_of_fuel, (m s).1)
    → C ((caught m >>= f) s)
caught_elim C m f s = caught_continue C (m s).0 f (m s).1
