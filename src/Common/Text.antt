-- ===== src/Common/Text.antt =====
-- ASCII text as lists of codes, and the parts of Python's `str` and `int` that the scripts use.
use Prim.Native.Nat.{ℕ, ◌+◌, ◌-◌, ◌*◌}
use Prim.Native.Char.{code}
use Prim.Native.String.{String}
use mathlib.Core.Path.{◌≡◌, refl, ap₂}
use mathlib.Core.Bool.{Bool, true, false, ◌&&◌, ◌||◌}
use mathlib.Core.Option
use mathlib.Core.Option.{Option, none, some}
use mathlib.Core.List.{List, [], ◌∷◌, reverse}
use native.Mathlib.Omega.{arith}
use hpm5321_can_analyzer.Common.Bools.{leb, ◌==◌, if◌then◌else◌}
use hpm5321_can_analyzer.Common.Int.{ℤ, pos, sub_ℕ}

abbrev pub codes : String → List ℕ
codes String.[] = []
codes (String.◌∷◌ c s) = code c ∷ codes s

abbrev pub is_digit : ℕ → Bool
is_digit c = leb b'0' c && leb c b'9'

-- The ASCII codes that `str.isspace` accepts.
abbrev pub is_space : ℕ → Bool
is_space c = c == 32 || leb 9 c && leb c 13 || leb 28 c && leb c 31

unfoldable pub strip_left : List ℕ → List ℕ
strip_left [] = []
strip_left (c ∷ cs) = if is_space c then strip_left cs else c ∷ cs

-- `str.strip()`
unfoldable pub strip : List ℕ → List ℕ
unfolding strip_left
strip cs = reverse (strip_left (reverse (strip_left cs)))

-- `str.lower()` and `str.casefold()` on ASCII.
abbrev pub lower : ℕ → ℕ
lower c = if leb b'A' c && leb c b'Z' then c + 32 else c

abbrev pub text_eq : List ℕ → List ℕ → Bool
text_eq [] [] = true
text_eq (a ∷ cs) (b ∷ ds) = a == b && text_eq cs ds
text_eq (a ∷ cs) [] = false
text_eq [] (b ∷ ds) = false

-- Decimal digits, single underscores allowed between two of them. `after` says that a digit
-- stands before.
unfoldable pub digits_from : ℕ → Bool → List ℕ → Option ℕ
digits_from acc after [] = if after then some acc else none
digits_from acc after (c ∷ cs) = elim (is_digit c) [
  | true ↦ digits_from (acc * 10 + (c - 48)) true cs
  | false ↦ elim (c == b'_' && after) [ true ↦ digits_from acc false cs | false ↦ none ]
]

abbrev signed : List ℕ → Option ℤ
unfolding digits_from
signed [] = none
signed (c ∷ cs) =
    if c == b'-'
    then Option.map (λ n. sub_ℕ 0 n) (digits_from 0 false cs)
    else if c == b'+'
    then Option.map pos (digits_from 0 false cs)
    else Option.map pos (digits_from 0 false (c ∷ cs))

-- The ASCII codes that `int` takes for spaces: not 28 to 31.
abbrev is_int_space : ℕ → Bool
is_int_space c = c == 32 || leb 9 c && leb c 13

unfoldable pub int_strip_left : List ℕ → List ℕ
int_strip_left [] = []
int_strip_left (c ∷ cs) = if is_int_space c then int_strip_left cs else c ∷ cs

-- `int(text)`: `none` is the ValueError.
unfoldable pub int_of_text : List ℕ → Option ℤ
unfolding int_strip_left signed
int_of_text cs = signed (reverse (int_strip_left (reverse (int_strip_left cs))))

pub text_eq→eq : (a b : List ℕ) → text_eq a b ≡ true → a ≡ b
text_eq→eq [] [] h = refl
text_eq→eq (a ∷ cs) (b ∷ ds) h =
    let same : a ≡ b = ground arith in
    let rest : text_eq cs ds ≡ true = ground arith in
    ap₂ (λ x xs. x ∷ xs) same (text_eq→eq cs ds rest)
text_eq→eq (a ∷ cs) [] h = cc
text_eq→eq [] (b ∷ ds) h = cc

pub text_eq_refl : (a : List ℕ) → text_eq a a ≡ true
text_eq_refl [] = refl
text_eq_refl (a ∷ cs) = let rest = text_eq_refl cs in ground arith
