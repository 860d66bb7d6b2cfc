-- ===== src/Base/Yields.antt =====
-- Calls that return, with a value of which something is known, from every state for which an
-- invariant holds, and keep the invariant.
use mathlib.Core.Path.{◌≡◌, refl, sym, subst}
use mathlib.Core.Bool.{Bool, true, false}
use migrate_app_backend.Base.Effect.{
  Result, ok, raise, out_of_fuel, Act, pure, lift, caught, Caught, returned, caught_result,
  continue, when, ◌>>=◌, is_ok,
}

pub record Yields {S A : Type 0} (I : S → Type 0) (Q : A → Type 0) (m : Act S A) : Type 0 where
  pub at : (s : S) → I s → (a : A) × ((m s).0 ≡ ok a) × Q a × I (m s).1

-- nothing is known of the value
abbrev pub Any : {A : Type 0} → A → Type 0
Any a = Unit

module _ {S A : Type 0} (I : S → Type 0) where
  pub Yields-pure : (Q : A → Type 0) (a : A) → Q a → Yields I Q (pure a)
  Yields-pure Q a q = record { at = λ s i. (a, refl, q, i) }

  pub Yields-lift : (r : Result A) → is_ok r ≡ true → Yields I Any (lift r)
  Yields-lift (ok a) h = record { at = λ s i. (a, refl, tt, i) }
  Yields-lift (raise e) h = cc
  Yields-lift out_of_fuel h = cc

  -- what a `try` statement comes to whose block returns
  abbrev pub Came : (A → Type 0) → Caught A → Type 0
  Came Q c = (a : A) × (c ≡ returned a) × Q a

  pub Yields-caught : (Q : A → Type 0) (m : Act S A) → Yields I Q m → Yields I (Came Q) (caught m)
  Yields-caught Q m h = record {
    at = λ s i.
        let (a, e, q, j) = h.at s i in (returned a, (λ k. caught_result (e k)), (a, refl, q), j);
  }

module _ {S A B : Type 0} (I : S → Type 0) (Q : A → Type 0) (R : B → Type 0) where
  pub Yields-bind :
      (m : Act S A) (f : A → Act S B)
      → Yields I Q m
      → ((a : A) → Q a → Yields I R (f a))
      → Yields I R (m >>= f)
  Yields-bind m f h k = record {
    at = λ s i.
        let (a, e, q, j) = h.at s i in
        subst (λ r. (b : B) × ((continue r f (m s).1).0 ≡ ok b) × R b × I (continue r f (m s).1).1)
          (sym e) ((k a q).at (m s).1 j);
  }

  -- the rest of a `try` statement whose block returns
  pub Yields-try :
      (m : Act S A) (f : Caught A → Act S B)
      → Yields I Q m
      → ((a : A) → Q a → Yields I R (f (returned a)))
      → Yields I R (caught m >>= f)
  Yields-try m f h k = record {
    at = λ s i.
        let (a, e, q, j) = h.at s i in
        subst
          (λ r.
            (b : B) × ((continue (caught_result r) f (m s).1).0 ≡ ok b)
            × R b
            × I (continue (caught_result r) f (m s).1).1)
          (sym e) ((k a q).at (m s).1 j);
  }

pub Yields-when :
    {S : Type 0} (I : S → Type 0) (b : Bool) (m : Act S (Unit {0}))
    → Yields I Any m
    → Yields I Any (when b m)
Yields-when I true m h = h
Yields-when I false m h = Yields-pure I Any tt tt
