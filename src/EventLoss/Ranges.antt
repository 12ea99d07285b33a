-- ===== src/EventLoss/Ranges.antt =====
-- Ranges of event sequences (scripts/phase3/reconcile_p3b_backpressure.py, lines 18 to 46).
use hpm5321_can_analyzer.Common.{
  ℕ, ◌+◌, ◌-◌, ◌%◌, ◌^◌, max, Bool, true, false, ◌&&◌, ◌||◌, List, [], ◌∷◌, foldr, ltb, leb, ◌==◌,
  if◌then◌else◌,
}
use hpm5321_can_analyzer.Common.Int.{ℤ, pos, negsuc, pos_part}
use hpm5321_can_analyzer.Common.Python.{Result, ok, raised, value_error}

-- 0xFFFF_FFFF
abbrev pub u32_max : ℕ
u32_max = 0xFFFFFFFF

-- A pair `(first, last)` of event sequences.
pub record Range : Type 0 where
  pub first : ℕ
  pub last : ℕ

abbrev pub range : ℕ → ℕ → Range
range a b = record { first = a; last = b }

unfoldable pub next_nonzero : ℕ → ℕ
next_nonzero value = let v = (value + 1) % 2 ^ 32 in if v == 0 then 1 else v

-- The script calls it on values that it has found to be at least 1.
unfoldable pub previous_nonzero : ℕ → ℕ
previous_nonzero value = if value == 1 then u32_max else value - 1

-- `1 <= value <= 0xFFFF_FFFF`
unfoldable pub in_u32_range : ℤ → Bool
in_u32_range (pos n) = leb 1 n && leb n u32_max
in_u32_range (negsuc n) = false

abbrev pub split_range : ℕ → ℕ → List Range
split_range first last =
    if leb first last then range first last ∷ [] else range first u32_max ∷ range 1 last ∷ []

unfoldable pub split_nonzero_range : ℤ → ℤ → Result (List Range)
unfolding in_u32_range
split_nonzero_range first last =
    if in_u32_range first && in_u32_range last
    then ok (split_range (pos_part first) (pos_part last))
    else raised value_error

-- Python's order of pairs, and `sorted`.
abbrev pub range_le : Range → Range → Bool
range_le a b = ltb a.first b.first || a.first == b.first && leb a.last b.last

unfoldable pub insert_range : Range → List Range → List Range
insert_range r [] = r ∷ []
insert_range r (s ∷ rs) = if range_le r s then r ∷ s ∷ rs else s ∷ insert_range r rs

unfoldable pub sorted : List Range → List Range
unfolding insert_range
sorted = foldr insert_range []

-- The loop of `merge_ranges`; `open_range` is `merged[-1]`, the one entry that the loop may still change.
unfoldable pub merge_from : Range → List Range → List Range
merge_from open_range [] = open_range ∷ []
merge_from open_range (r ∷ rs) = elim (ltb (open_range.last + 1) r.first) [
  | true ↦ open_range ∷ merge_from r rs
  | false ↦ merge_from (range open_range.first (max open_range.last r.last)) rs
]

abbrev pub merge_sorted : List Range → List Range
merge_sorted [] = []
merge_sorted (r ∷ rs) = merge_from r rs

unfoldable pub merge_ranges : List Range → List Range
unfolding merge_from sorted
merge_ranges rs = merge_sorted (sorted rs)

-- `last - first + 1` over ranges with `first <= last`, the only ones that the script builds.
unfoldable pub range_count : List Range → ℕ
range_count [] = 0
range_count (r ∷ rs) = (r.last + 1 - r.first) + range_count rs
