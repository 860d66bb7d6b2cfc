-- ===== src/Utils/Helpers/Laws.antt =====
-- app/utils/helpers.py: the range of a progress, and the pieces of a list.
use migrate_app_backend.Base.{
  ℕ, zero, suc, ◌-◌, ◌≤◌, ◌<◌, List, [], ◌∷◌, ◌++◌, take, drop, length, All, ok, leb, ◌==◌, ◌≡◌,
  refl, ap, ◌∙◌, arith, Bool-cases, inl, inr,
}
use migrate_app_backend.Base.Effect.{ok-injective}
use migrate_app_backend.Base.Int.{ℤ, pos}
use migrate_app_backend.Utils.Helpers.{Floats, at_most_100, calculate_progress, chunks, chunk_list}

-- What floats give: a quotient of two counts is not negative, nor is its product with a count, and
-- rounding keeps that.
pub record IsRounding {F : Type 0} (floats : Floats F) : Type 1 where
  pub NonNegative : F → Type 0
  pub of_div : (p t : ℕ) → 0 < t → NonNegative (floats.div_int p t)
  pub of_mul : (x : F) (n : ℕ) → NonNegative x → NonNegative (floats.mul x n)
  pub of_round : (x : F) → NonNegative x → (n : ℕ) × (floats.round x ≡ pos n)

at_most_100_range : (n : ℕ) (z : ℤ) → z ≡ pos n → (k : ℕ) × (at_most_100 z ≡ pos k) × (k ≤ 100)
at_most_100_range n z e = elim (Bool-cases (leb 100 n)) [
  | inl big ↦ (100, rw (e, big) refl, omega arith)
  | inr small ↦ (n, rw (e, small) refl, ground arith)
]

-- For floats that round a product of counts to a count (`IsRounding`), the progress of any number of
-- rows out of any total is between 0 and 100, also where more rows were processed than were planned.
pub calculate_progress_range :
    {F : Type 0} (floats : Floats F)
    → IsRounding floats
    → (processed total : ℕ)
    → (k : ℕ) × (calculate_progress floats processed total ≡ pos k) × (k ≤ 100)
unfolding calculate_progress
calculate_progress_range floats h processed total = elim (Bool-cases (total == 0)) [
  | inl none ↦ (0, rw none refl, omega arith)
  | inr some ↦
      let (n, e) = h.of_round _ (h.of_mul _ 100 (h.of_div processed total (ground arith))) in
      rw some (at_most_100_range n _ e)
]

abbrev pub concat : {A : Type 0} → List (List A) → List A
concat [] = []
concat (xs ∷ xss) = xs ++ concat xss

take-append-drop : {A : Type 0} (n : ℕ) (xs : List A) → take n xs ++ drop n xs ≡ xs
take-append-drop zero xs = refl
take-append-drop (suc n) [] = refl
take-append-drop (suc n) (x ∷ xs) = ap (λ l. x ∷ l) (take-append-drop n xs)

pub length-drop : {A : Type 0} (n : ℕ) (xs : List A) → length (drop n xs) ≡ length xs - n
length-drop zero xs = omega arith
length-drop (suc n) [] = omega arith
length-drop (suc n) (x ∷ xs) = omega (arith, length-drop n xs)

length-take : {A : Type 0} (n : ℕ) (xs : List A) → length (take n xs) ≤ n
length-take zero xs = omega arith
length-take (suc n) [] = omega arith
length-take (suc n) (x ∷ xs) = omega (arith, length-take n xs)

concat-chunks :
    {A : Type 0} (rounds n : ℕ) (xs : List A)
    → length xs ≤ rounds
    → concat (chunks rounds (suc n) xs) ≡ xs
unfolding chunks
concat-chunks zero n [] h = refl
concat-chunks zero n (x ∷ xs) h = absurd (omega arith)
concat-chunks (suc rounds) n [] h = refl
concat-chunks (suc rounds) n (x ∷ xs) h =
    ap (λ l. take (suc n) (x ∷ xs) ++ l)
      (concat-chunks rounds n (drop (suc n) (x ∷ xs)) (omega (arith, length-drop n xs)))
    ∙ take-append-drop (suc n) (x ∷ xs)

-- a piece that is not empty and has at most `size` members
abbrev pub IsPiece : {A : Type 0} → ℕ → List A → Type 0
IsPiece size xs = (0 < length xs) × (length xs ≤ size)

chunks-IsPiece :
    {A : Type 0} (rounds n : ℕ) (xs : List A) → All (IsPiece (suc n)) (chunks rounds (suc n) xs)
unfolding chunks
chunks-IsPiece zero n xs = tt
chunks-IsPiece (suc rounds) n [] = tt
chunks-IsPiece (suc rounds) n (x ∷ xs) =
    ((omega arith, length-take (suc n) (x ∷ xs)), chunks-IsPiece rounds n (drop (suc n) (x ∷ xs)))

-- The pieces that `chunk_list` makes are not empty, have at most as many members as asked for, and
-- put together are the list; a size of 0 is refused.
pub chunk_list_pieces :
    {A : Type 0} (lst : List A) (size : ℕ) (pieces : List (List A))
    → chunk_list lst size ≡ ok pieces
    → (concat pieces ≡ lst) × All (IsPiece size) pieces
unfolding chunk_list
chunk_list_pieces lst zero pieces h = absurd (cc)
chunk_list_pieces lst (suc n) pieces h =
    let e = ok-injective h in
    (
      rw (← e) (concat-chunks (length lst) n lst (omega arith)),
      rw (← e) (chunks-IsPiece (length lst) n lst),
    )
