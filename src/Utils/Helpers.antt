-- ===== src/Utils/Helpers.antt =====
-- app/utils/helpers.py. Floats are a parameter, with the operations that the code uses.
pub mod Laws
use migrate_app_backend.Base.{
  ℕ, zero, suc, ◌+◌, ◌-◌, ◌≤◌, String, Option, none, some, Bool, true, false, ◌||◌, List, [], ◌∷◌,
  ◌++◌, take, drop, length, Exception, Result, ok, raise, leb, ◌==◌, if◌then◌else◌,
}
use migrate_app_backend.Base.Int.{ℤ, pos, negsuc}

-- Python's floats: true division of integers, a quotient and a product with an integer, a difference,
-- the tests `x <= 0` and `x > 0`, and `round` and `math.ceil`.
pub record Floats (F : Type 0) : Type 0 where
  pub zero_float : F
  pub div_int : ℕ → ℕ → F
  pub div : ℕ → F → F
  pub mul : F → ℕ → F
  pub sub : F → F → F
  pub is_positive : F → Bool
  pub is_nonpositive : F → Bool
  pub round : F → ℤ
  pub ceil : F → ℤ

-- `min(100, x)`
abbrev pub at_most_100 : ℤ → ℤ
at_most_100 (pos n) = if leb 100 n then pos 100 else pos n
at_most_100 (negsuc n) = negsuc n

module _ {F : Type 0} (floats : Floats F) where
  -- `calculate_progress`
  unfoldable pub calculate_progress : ℕ → ℕ → ℤ
  calculate_progress processed total =
      if total == 0
      then pos 0
      else at_most_100 (floats.round (floats.mul (floats.div_int processed total) 100))

  -- `calculate_speed`
  unfoldable pub calculate_speed : ℕ → F → ℤ
  calculate_speed processed_rows elapsed_seconds =
      if floats.is_nonpositive elapsed_seconds
      then pos 0
      else floats.round (floats.div processed_rows elapsed_seconds)

  -- `estimate_time_remaining`
  unfoldable pub estimate_time_remaining : ℕ → ℕ → F → ℤ
  estimate_time_remaining processed_rows total_rows elapsed_seconds =
      let rate = floats.div processed_rows elapsed_seconds in
      if processed_rows == 0 || total_rows == 0 || floats.is_nonpositive elapsed_seconds
      then pos 0
      else if floats.is_positive rate
      then floats.ceil (floats.div (total_rows - processed_rows) rate)
      else pos 0

-- the slices from the first on, with as many rounds as there are members
unfoldable pub chunks : {A : Type 0} → ℕ → ℕ → List A → List (List A)
chunks zero size lst = []
chunks (suc rounds) size [] = []
chunks (suc rounds) size (x ∷ xs) = take size (x ∷ xs) ∷ chunks rounds size (drop size (x ∷ xs))

-- `chunk_list`; `range` raises for a step of 0
unfoldable pub chunk_list : {A : Type 0} → List A → ℕ → Result (List (List A))
unfolding chunks
chunk_list lst zero = raise (Exception.value_error "range() arg 3 must not be zero")
chunk_list lst (suc n) = ok (chunks (length lst) (suc n) lst)
