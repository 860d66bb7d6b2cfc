-- ===== src/Migration/Mapper/Coerced.antt =====
-- app/migration/mapper.py: what `_coerce` makes of a value, by the value.
use migrate_app_backend.Base.{
  zero, suc, String, Bool, true, false, not, ◌||◌, Result, ok, str_eq, ◌≡◌, sym, ap, ◌∙◌,
}
use migrate_app_backend.Base.Effect.{ok-injective}
use migrate_app_backend.Base.Int.{ℤ, pos, negsuc}
use migrate_app_backend.Base.Text.{upper, lower, before_paren}
use migrate_app_backend.Migration.Value.{Python, Value, bool, int, float, str, json}

module _ (P : Python) where
  -- values that a column of the bare type `u` takes as they are
  abbrev pub fits : String → Value P → Bool
  fits u (int n) = not (str_eq u "BOOLEAN")
  fits u (str s) = not (str_eq u "BOOLEAN")
  fits u (float x) = not (str_eq u "INTEGER" || str_eq u "SMALLINT" || str_eq u "BIGINT")
  fits u (json x) = not (str_eq u "TEXT" || str_eq u "VARCHAR" || str_eq u "CHAR")
  fits u _ = true

  -- what the other values become: a number is true if it is not zero, a text if it is one of four; a
  -- float loses its fraction, and a list or dictionary becomes its JSON
  abbrev pub Becomes : Value P → Value P → Type 0
  Becomes (int (pos zero)) w = w ≡ bool false
  Becomes (int (pos (suc n))) w = w ≡ bool true
  Becomes (int (negsuc n)) w = w ≡ bool true
  Becomes (str s) w =
      w
      ≡ bool (
          str_eq (lower s) "1"
          || str_eq (lower s) "true"
          || str_eq (lower s) "yes"
          || str_eq (lower s) "t")
  Becomes (float x) w = (n : ℤ) × (P.int_of_float x ≡ ok n) × (w ≡ int n)
  Becomes (json x) w = (s : String) × (P.dumps x ≡ ok s) × (w ≡ str s)
  Becomes v w = w ≡ v

  -- a value that fits is left as it is
  abbrev pub Coerced : Bool → Value P → Value P → Type 0
  Coerced true v w = w ≡ v
  Coerced false v w = Becomes v w

  abbrev pub bare : String → String
  bare dest_type = before_paren (upper dest_type)

  module _ (u : String) where
    -- what is made of a value, and that it fits
    abbrev Made : Value P → Value P → Type 0
    Made v w = Coerced (fits u v) v w × (fits u w ≡ true)

    kept : (v w : Value P) (r : Result (Value P)) → fits u v ≡ true → r ≡ ok v → r ≡ ok w → Made v w
    kept v w r f e h =
        let same : w ≡ v = ok-injective (sym h ∙ e) in (rw f same, ap (λ x. fits u x) same ∙ f)
