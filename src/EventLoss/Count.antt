-- ===== src/EventLoss/Count.antt =====
-- The count of ranges before and after merging
-- (scripts/phase3/reconcile_p3b_backpressure.py, `range_count` and `merge_ranges`).
use hpm5321_can_analyzer.Common.{
  ℕ, zero, suc, ◌+◌, ◌-◌, ◌≤◌, ◌<◌, min, ◌≡◌, refl, sym, ◌∙◌, ap, fun_ext, ◌↔◌, inl, inr, Bool,
  true, false, List, [], ◌∷◌, arith, if◌then◌else◌, ltb, Bool-cases,
}
use hpm5321_can_analyzer.EventLoss.Ranges.{Range, range, merge_ranges, range_count}
use hpm5321_can_analyzer.EventLoss.Merge.{
  contains, covers, AreRanges, IsSeparated, merge_ranges-IsSeparated, covers-merge_ranges,
}
use hpm5321_can_analyzer.EventLoss.Canonical.{covers-le}

abbrev pub to_ℕ : Bool → ℕ
to_ℕ b = if b then 1 else 0

-- In how many of the ranges the sequence lies.
unfoldable pub multiplicity : ℕ → List Range → ℕ
multiplicity x [] = 0
multiplicity x (r ∷ rs) = to_ℕ (contains x r) + multiplicity x rs

-- The sum of `f` over the numbers below `n`.
unfoldable pub sum_below : ℕ → (ℕ → ℕ) → ℕ
sum_below zero f = 0
sum_below (suc n) f = f n + sum_below n f

-- Every range ends below `n`.
abbrev pub EndBelow : ℕ → List Range → Type 0
EndBelow n [] = Unit
EndBelow n (r ∷ rs) = (r.last < n) × EndBelow n rs

sum_below_add : (n : ℕ) (f g : ℕ → ℕ) → sum_below n (λ x. f x + g x) ≡ sum_below n f + sum_below n g
unfolding sum_below
sum_below_add zero f g = omega arith
sum_below_add (suc n) f g = omega (arith, sum_below_add n f g)

sum_below_zero : (n : ℕ) → sum_below n (λ x. 0) ≡ 0
unfolding sum_below
sum_below_zero zero = refl
sum_below_zero (suc n) = omega (arith, sum_below_zero n)

sum_below_le : (n : ℕ) (f g : ℕ → ℕ) → ((x : ℕ) → f x ≤ g x) → sum_below n f ≤ sum_below n g
unfolding sum_below
sum_below_le zero f g h = omega arith
sum_below_le (suc n) f g h = omega (arith, sum_below_le n f g h, h n)

-- Equal sums of ordered functions come from equal functions.
sum_below_eq :
    (n x : ℕ) (f g : ℕ → ℕ)
    → ((y : ℕ) → f y ≤ g y)
    → sum_below n f ≡ sum_below n g
    → x < n
    → f x ≡ g x
unfolding sum_below
sum_below_eq zero x f g h e k = absurd (omega arith)
sum_below_eq (suc n) x f g h e k = grind (arith, sum_below_le n f g h, h n, sum_below_eq n x f g h)

-- One range holds as many sequences as the script counts.
sum_below-contains :
    (n a b : ℕ) → a ≤ b → sum_below n (λ x. to_ℕ (contains x (range a b))) ≡ min n (b + 1) - a
unfolding sum_below
sum_below-contains zero a b h = omega arith
sum_below-contains (suc n) a b h = ground (arith, sum_below-contains n a b h)

range_count-eq-sum :
    (n : ℕ) (rs : List Range)
    → AreRanges rs
    → EndBelow n rs
    → range_count rs ≡ sum_below n (λ x. multiplicity x rs)
unfolding range_count multiplicity
range_count-eq-sum n [] h k = sym (sum_below_zero n)
range_count-eq-sum n (r ∷ rs) h k = omega (
  arith,
  range_count-eq-sum n rs h.1 k.1,
  sum_below-contains n r.first r.last h.0,
  sum_below_add n (λ x. to_ℕ (contains x r)) (λ x. multiplicity x rs),
)

to_ℕ-covers-le : (x : ℕ) (rs : List Range) → to_ℕ (covers x rs) ≤ multiplicity x rs
unfolding covers multiplicity
to_ℕ-covers-le x [] = omega arith
to_ℕ-covers-le x (r ∷ rs) = ground (arith, to_ℕ-covers-le x rs)

-- In separated ranges a sequence lies once or not at all.
multiplicity-IsSeparated :
    (n x : ℕ) (rs : List Range) → IsSeparated n rs → multiplicity x rs ≡ to_ℕ (covers x rs)
unfolding covers multiplicity
multiplicity-IsSeparated n x [] s = refl
multiplicity-IsSeparated n x (r ∷ rs) s =
    ground (arith, multiplicity-IsSeparated (r.last + 2) x rs s.2, covers-le (r.last + 2) x rs s.2)

covers-multiplicity : (x : ℕ) (rs : List Range) → covers x rs ≡ false → multiplicity x rs ≡ 0
unfolding covers multiplicity
covers-multiplicity x [] h = refl
covers-multiplicity x (r ∷ rs) h = ground (arith, covers-multiplicity x rs)

-- A number above every range.
abbrev end_bound : List Range → ℕ
end_bound [] = 0
end_bound (r ∷ rs) = r.last + 1 + end_bound rs

EndBelow-weaken : (n m : ℕ) (rs : List Range) → n ≤ m → EndBelow n rs → EndBelow m rs
EndBelow-weaken n m [] h e = tt
EndBelow-weaken n m (r ∷ rs) h e = (omega arith, EndBelow-weaken n m rs h e.1)

end_bound_lem : (rs : List Range) → EndBelow (end_bound rs) rs
end_bound_lem [] = tt
end_bound_lem (r ∷ rs) = (
  omega arith,
  EndBelow-weaken (end_bound rs) (end_bound (r ∷ rs)) rs (omega arith) (end_bound_lem rs),
)

covers-lt : (n x : ℕ) (rs : List Range) → EndBelow n rs → covers x rs ≡ true → x < n
unfolding covers
covers-lt n x [] e c = cc
covers-lt n x (r ∷ rs) e c = ground (arith, covers-lt n x rs e.1)

IsSeparated-AreRanges : (n : ℕ) (rs : List Range) → IsSeparated n rs → AreRanges rs
IsSeparated-AreRanges n [] s = tt
IsSeparated-AreRanges n (r ∷ rs) s = (s.1, IsSeparated-AreRanges (r.last + 2) rs s.2)

EndBelow-of_covers :
    (n : ℕ) (rs : List Range)
    → AreRanges rs
    → ((x : ℕ) → covers x rs ≡ true → x < n)
    → EndBelow n rs
unfolding covers
EndBelow-of_covers n [] h k = tt
EndBelow-of_covers n (r ∷ rs) h k =
    (k r.last (ground arith), EndBelow-of_covers n rs h.1 (λ x c. k x (ground arith)))

module _ (rs : List Range) (valid : AreRanges rs) where
  merged-IsSeparated : IsSeparated 0 (merge_ranges rs)
  merged-IsSeparated = merge_ranges-IsSeparated rs valid

  -- The merged ranges hold each covered sequence once.
  merged_count : range_count (merge_ranges rs) ≡ sum_below (end_bound rs) (λ x. to_ℕ (covers x rs))
  merged_count =
      range_count-eq-sum (end_bound rs) (merge_ranges rs)
        (IsSeparated-AreRanges 0 (merge_ranges rs) merged-IsSeparated)
        (EndBelow-of_covers (end_bound rs) (merge_ranges rs)
          (IsSeparated-AreRanges 0 (merge_ranges rs) merged-IsSeparated)
          (λ x c.
            covers-lt (end_bound rs) x rs (end_bound_lem rs) (sym (covers-merge_ranges x rs) ∙ c)))
      ∙ ap (sum_below (end_bound rs)) (
          fun_ext (λ x.
            multiplicity-IsSeparated 0 x (merge_ranges rs) merged-IsSeparated
            ∙ ap to_ℕ (covers-merge_ranges x rs)))

  pub range_count-merge-le : range_count (merge_ranges rs) ≤ range_count rs
  range_count-merge-le = omega (
    arith,
    merged_count,
    range_count-eq-sum (end_bound rs) rs valid (end_bound_lem rs),
    sum_below_le (end_bound rs) (λ x. to_ℕ (covers x rs)) (λ x. multiplicity x rs)
        (λ x. to_ℕ-covers-le x rs),
  )

  multiplicity_le_one :
      range_count (merge_ranges rs) ≡ range_count rs → (x : ℕ) → multiplicity x rs ≤ 1
  multiplicity_le_one e x = elim (Bool-cases (covers x rs)) [
    | inl c ↦
        let once : to_ℕ (covers x rs) ≡ multiplicity x rs =
          sum_below_eq (end_bound rs) x (λ y. to_ℕ (covers y rs)) (λ y. multiplicity y rs)
            (λ y. to_ℕ-covers-le y rs)
            (sym merged_count ∙ e ∙ range_count-eq-sum (end_bound rs) rs valid (end_bound_lem rs))
            (covers-lt (end_bound rs) x rs (end_bound_lem rs) c) in
        ground arith
    | inr c ↦ omega (arith, covers-multiplicity x rs c)
  ]

  count_of_once : ((x : ℕ) → multiplicity x rs ≤ 1) → range_count (merge_ranges rs) ≡ range_count rs
  count_of_once h =
      merged_count
      ∙ ap (sum_below (end_bound rs)) (fun_ext (λ x. once x))
      ∙ sym (range_count-eq-sum (end_bound rs) rs valid (end_bound_lem rs))
    where
      once : (x : ℕ) → to_ℕ (covers x rs) ≡ multiplicity x rs
      once x = ground (arith, to_ℕ-covers-le x rs, covers-multiplicity x rs, h x)

  -- Merging keeps the count of nonempty ranges exactly if no sequence lies in two of them.
  pub range_count-merge_eq_iff :
      (range_count (merge_ranges rs) ≡ range_count rs) ↔ ((x : ℕ) → multiplicity x rs ≤ 1)
  range_count-merge_eq_iff = (multiplicity_le_one, count_of_once)

-- A sequence is covered exactly if it lies in some range.
pub covers_iff_multiplicity : (x : ℕ) (rs : List Range) → covers x rs ≡ ltb 0 (multiplicity x rs)
unfolding covers multiplicity
covers_iff_multiplicity x [] = refl
covers_iff_multiplicity x (r ∷ rs) = ground (arith, covers_iff_multiplicity x rs)
