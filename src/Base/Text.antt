-- ===== src/Base/Text.antt =====
-- Python's `str` methods that the program uses, on ASCII text: `upper`, `lower`, `split(c)[0]`,
-- `strip`, `join`, and `str` of a number.
use Prim.Native.Nat.{ℕ, zero, suc, ◌-◌, ◌/◌, ◌%◌}
use Prim.Native.Char.{Char, code}
use Prim.Native.String
use Prim.Native.String.{String, [], ◌∷◌, char_at}
use mathlib.Core.Bool.{Bool, true, false, ◌&&◌, ◌||◌}
use mathlib.Core.List.{List}
use migrate_app_backend.Base.Tests.{leb, ltb, ◌==◌, if◌then◌else◌}

infixr 66 ◌<>◌
abbrev pub ◌<>◌ : String → String → String
s <> t = String.◌++◌ s t

abbrev upper_char : Char → Char
upper_char c =
    if leb b'a' (code c) && leb (code c) b'z'
    then char_at "ABCDEFGHIJKLMNOPQRSTUVWXYZ" (code c - b'a')
    else c

abbrev lower_char : Char → Char
lower_char c =
    if leb b'A' (code c) && leb (code c) b'Z'
    then char_at "abcdefghijklmnopqrstuvwxyz" (code c - b'A')
    else c

unfoldable pub upper : String → String
upper [] = []
upper (c ∷ s) = upper_char c ∷ upper s

unfoldable pub lower : String → String
lower [] = []
lower (c ∷ s) = lower_char c ∷ lower s

-- `s.split("(")[0]`
unfoldable pub before_paren : String → String
before_paren [] = []
before_paren (c ∷ s) = let rest = before_paren s in if code c == b'(' then [] else c ∷ rest

-- ASCII white space
abbrev is_space : Char → Bool
is_space c =
    code c == 32 || (leb 9 (code c) && leb (code c) 13) || (leb 28 (code c) && leb (code c) 31)

unfoldable pub lstrip : String → String
lstrip [] = []
lstrip (c ∷ s) = let rest = lstrip s in if is_space c then rest else c ∷ s

unfoldable pub is_blank : String → Bool
is_blank [] = true
is_blank (c ∷ s) = is_space c && is_blank s

unfoldable pub rstrip : String → String
unfolding is_blank
rstrip [] = []
rstrip (c ∷ s) = let rest = c ∷ rstrip s in if is_blank (c ∷ s) then [] else rest

unfoldable pub strip : String → String
unfolding lstrip rstrip
strip s = rstrip (lstrip s)

-- `sep.join(parts)`
unfoldable pub join : String → List String → String
join sep List.[] = ""
join sep (List.◌∷◌ s List.[]) = s
join sep (List.◌∷◌ s (List.◌∷◌ t r)) = s <> sep <> join sep (List.◌∷◌ t r)

digit : ℕ → String
digit n = char_at "0123456789" n ∷ []

show_digits : ℕ → ℕ → String
unfolding digit
show_digits zero n = digit (n % 10)
show_digits (suc f) n = elim (ltb n 10) [
  | true ↦ digit n
  | false ↦ show_digits f (n / 10) <> digit (n % 10)
]

-- `str(n)`: a number has fewer digits than its value plus one.
unfoldable pub show : ℕ → String
unfolding show_digits
show n = show_digits n n
