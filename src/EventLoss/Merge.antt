-- ===== src/EventLoss/Merge.antt =====
-- Coverage and form of merged ranges
-- (scripts/phase3/reconcile_p3b_backpressure.py, `merge_ranges`).
use hpm5321_can_analyzer.Common.{
  ℕ, ◌+◌, ◌≤◌, max, ◌≡◌, refl, ◌∙◌, Bool, false, ◌&&◌, ◌||◌, List, [], ◌∷◌, arith, leb,
}
use hpm5321_can_analyzer.EventLoss.Ranges.{
  Range, range, insert_range, sorted, merge_from, merge_sorted, merge_ranges,
}

-- The sequence lies in the range.
abbrev pub contains : ℕ → Range → Bool
contains x r = leb r.first x && leb x r.last

-- The sequence lies in one of the ranges.
unfoldable pub covers : ℕ → List Range → Bool
covers x [] = false
covers x (r ∷ rs) = contains x r || covers x rs

-- No range is empty.
abbrev pub AreRanges : List Range → Type 0
AreRanges [] = Unit
AreRanges (r ∷ rs) = (r.first ≤ r.last) × AreRanges rs

-- The first sequences do not fall, and start at `n` or above.
abbrev pub IsAscending : ℕ → List Range → Type 0
IsAscending n [] = Unit
IsAscending n (r ∷ rs) = (n ≤ r.first) × IsAscending r.first rs

-- The ranges are not empty, ascend, and leave a gap between any two.
abbrev pub IsSeparated : ℕ → List Range → Type 0
IsSeparated n [] = Unit
IsSeparated n (r ∷ rs) = (n ≤ r.first) × (r.first ≤ r.last) × IsSeparated (r.last + 2) rs

insert_range-IsAscending :
    (n : ℕ) (r : Range) (rs : List Range)
    → n ≤ r.first
    → IsAscending n rs
    → IsAscending n (insert_range r rs)
unfolding insert_range
insert_range-IsAscending n r [] h a = (h, tt)
insert_range-IsAscending n r (s ∷ rs) h a = ground (arith, insert_range-IsAscending s.first r rs)

pub sorted-IsAscending : (rs : List Range) → IsAscending 0 (sorted rs)
unfolding sorted
sorted-IsAscending [] = tt
sorted-IsAscending (r ∷ rs) =
    insert_range-IsAscending 0 r (sorted rs) (omega arith) (sorted-IsAscending rs)

insert_range-AreRanges :
    (r : Range) (rs : List Range) → r.first ≤ r.last → AreRanges rs → AreRanges (insert_range r rs)
unfolding insert_range
insert_range-AreRanges r [] h a = (h, tt)
insert_range-AreRanges r (s ∷ rs) h a = ground (arith, insert_range-AreRanges r rs h a.1)

pub sorted-AreRanges : (rs : List Range) → AreRanges rs → AreRanges (sorted rs)
unfolding sorted
sorted-AreRanges [] h = tt
sorted-AreRanges (r ∷ rs) h = insert_range-AreRanges r (sorted rs) h.0 (sorted-AreRanges rs h.1)

IsAscending-weaken : (n m : ℕ) (rs : List Range) → IsAscending n rs → m ≤ n → IsAscending m rs
IsAscending-weaken n m [] a h = tt
IsAscending-weaken n m (r ∷ rs) a h = (omega arith, a.1)

merge_from-IsSeparated :
    (n : ℕ) (t : Range) (rs : List Range)
    → n ≤ t.first
    → t.first ≤ t.last
    → AreRanges rs
    → IsAscending t.first rs
    → IsSeparated n (merge_from t rs)
unfolding merge_from
merge_from-IsSeparated n t [] h k a s = (h, k, tt)
merge_from-IsSeparated n t (r ∷ rs) h k a s = ground (
  arith,
  merge_from-IsSeparated (t.last + 2) r rs,
  merge_from-IsSeparated n (range t.first (max t.last r.last)) rs,
  IsAscending-weaken r.first t.first rs s.1,
)

-- The merged ranges are in canonical form.
pub merge_ranges-IsSeparated : (rs : List Range) → AreRanges rs → IsSeparated 0 (merge_ranges rs)
unfolding merge_ranges
merge_ranges-IsSeparated rs h = go (sorted rs) (sorted-IsAscending rs) (sorted-AreRanges rs h)
  where
    go : (ss : List Range) → IsAscending 0 ss → AreRanges ss → IsSeparated 0 (merge_sorted ss)
    go [] a k = tt
    go (r ∷ ss) a k = merge_from-IsSeparated 0 r ss a.0 k.0 k.1 a.1

covers-insert_range :
    (x : ℕ) (r : Range) (rs : List Range)
    → covers x (insert_range r rs) ≡ (contains x r || covers x rs)
unfolding covers insert_range
covers-insert_range x r [] = refl
covers-insert_range x r (s ∷ rs) = ground (arith, covers-insert_range x r rs)

pub covers-sorted : (x : ℕ) (rs : List Range) → covers x (sorted rs) ≡ covers x rs
unfolding covers sorted
covers-sorted x [] = refl
covers-sorted x (r ∷ rs) = rw (covers-insert_range, covers-sorted x rs)

covers-merge_from :
    (x : ℕ) (t : Range) (rs : List Range)
    → IsAscending t.first rs
    → covers x (merge_from t rs) ≡ (contains x t || covers x rs)
unfolding covers merge_from
covers-merge_from x t [] a = refl
covers-merge_from x t (r ∷ rs) a = ground (
  arith,
  covers-merge_from x r rs a.1,
  covers-merge_from x (range t.first (max t.last r.last)) rs,
  IsAscending-weaken r.first t.first rs a.1,
)

-- Merging changes neither what is covered nor what is not.
pub covers-merge_ranges : (x : ℕ) (rs : List Range) → covers x (merge_ranges rs) ≡ covers x rs
unfolding merge_ranges covers
covers-merge_ranges x rs = go (sorted rs) (sorted-IsAscending rs) ∙ covers-sorted x rs
  where
    go : (ss : List Range) → IsAscending 0 ss → covers x (merge_sorted ss) ≡ covers x ss
    go [] a = refl
    go (r ∷ ss) a = covers-merge_from x r ss a.1
