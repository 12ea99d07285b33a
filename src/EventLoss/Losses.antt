-- ===== src/EventLoss/Losses.antt =====
-- Loss rows without an error as a whole
-- (scripts/phase3/reconcile_p3b_backpressure.py, `declared_loss_ranges`).
use hpm5321_can_analyzer.Common.{
  ℕ, ◌+◌, ◌≤◌, ◌≡◌, refl, sym, ◌∙◌, ap, inl, inr, ◌&&◌, List, [], ◌∷◌, ◌++◌, arith, ltb,
  append-nil_right, Bool-cases,
}
use hpm5321_can_analyzer.Common.Int.{pos, pos_part, ◌+ℤ◌, eqb_ℤ, eqb_ℤ→eq}
use hpm5321_can_analyzer.Common.Python.{ok, Result-cases, Row}
use hpm5321_can_analyzer.EventLoss.Ranges.{Range, split_range, merge_ranges, range_count}
use hpm5321_can_analyzer.EventLoss.Merge.{
  covers, AreRanges, IsSeparated, covers-merge_ranges, merge_ranges-IsSeparated,
}
use hpm5321_can_analyzer.EventLoss.Count.{
  to_ℕ, multiplicity, range_count-merge_eq_iff, covers_iff_multiplicity,
}
use hpm5321_can_analyzer.EventLoss.Observed.{overlapping_losses}
use hpm5321_can_analyzer.EventLoss.Declared.{
  Loss, Losses, Declared, no_losses, declare_rows, finish_losses, declared_loss_ranges,
}
use hpm5321_can_analyzer.EventLoss.LossRows.{
  Declares, is_event_loss, in_cycle, declarations, AllExact, row_ranges, all_ranges, AreClean,
  declare_rows-AreClean,
}

multiplicity-append :
    (x : ℕ) (rs ss : List Range) → multiplicity x (rs ++ ss) ≡ multiplicity x rs + multiplicity x ss
unfolding multiplicity
multiplicity-append x [] ss = omega arith
multiplicity-append x (r ∷ rs) ss = omega (arith, multiplicity-append x rs ss)

multiplicity-split_range : (x a b : ℕ) → multiplicity x (split_range a b) ≡ to_ℕ (in_cycle x a b)
unfolding multiplicity
multiplicity-split_range x a b = ground arith

multiplicity-row_ranges :
    (x : ℕ) (l : Loss)
    → multiplicity x (row_ranges l)
      ≡ to_ℕ (is_event_loss l && in_cycle x (pos_part l.first) (pos_part l.last))
unfolding multiplicity
multiplicity-row_ranges x l = elim (Bool-cases (is_event_loss l)) [
  | inl event ↦ rw event (multiplicity-split_range x (pos_part l.first) (pos_part l.last))
  | inr other ↦ rw other refl
]

-- The ranges hold a sequence as often as the rows declare it.
multiplicity-all_ranges :
    (x : ℕ) (ls : List Loss) → multiplicity x (all_ranges ls) ≡ declarations x ls
unfolding multiplicity
multiplicity-all_ranges x [] = refl
multiplicity-all_ranges x (l ∷ ls) = omega (
  arith,
  multiplicity-append x (row_ranges l) (all_ranges ls),
  multiplicity-row_ranges x l,
  multiplicity-all_ranges x ls,
)

-- What an error-free reading of the losses says.
pub record AreAccounted (ls : List Loss) (d : Losses) : Type 0 where
  pub exact : AllExact ls
  pub once : (x : ℕ) → declarations x ls ≤ 1
  pub covered : (x : ℕ) → covers x d.merged ≡ ltb 0 (declarations x ls)
  pub counted : d.declared_count ≡ pos (range_count d.merged)
  pub canonical : IsSeparated 0 d.merged

zero_add_pos : (n : ℕ) → pos 0 +ℤ pos n ≡ pos n
zero_add_pos n = ground arith

finish_losses-clean :
    (s : Declared)
    → (finish_losses s).errors ≡ []
    → (s.errors ≡ []) × (pos (range_count (merge_ranges s.ranges)) ≡ s.declared_count)
unfolding finish_losses
finish_losses-clean s h =
    elim (Bool-cases (eqb_ℤ (pos (range_count (merge_ranges s.ranges))) s.declared_count)) [
      | inl same ↦
          (ground arith, eqb_ℤ→eq (pos (range_count (merge_ranges s.ranges))) s.declared_count same)
      | inr other ↦ absurd (append-nil_right s.errors overlapping_losses (rw other at h))
    ]

finish-AreAccounted :
    (ls : List Loss) (s : Declared)
    → AreClean ls no_losses s
    → pos (range_count (merge_ranges s.ranges)) ≡ s.declared_count
    → AreAccounted ls (finish_losses s)
unfolding finish_losses
finish-AreAccounted ls s clean same =
    let ranges : s.ranges ≡ all_ranges ls = clean.ranges in
    let valid : AreRanges s.ranges = rw ranges clean.valid in
    let count : s.declared_count ≡ pos (range_count s.ranges) =
      clean.count
      ∙ zero_add_pos (range_count (all_ranges ls))
      ∙ ap (λ rs. pos (range_count rs)) (sym ranges) in
    let kept : range_count (merge_ranges s.ranges) ≡ range_count s.ranges =
      ap pos_part (same ∙ count) in
    let per_row : (x : ℕ) → multiplicity x s.ranges ≡ declarations x ls =
      λ x. ap (multiplicity x) ranges ∙ multiplicity-all_ranges x ls in
    record {
      exact = clean.exact;
      once = λ x. rw (← per_row x) ((range_count-merge_eq_iff s.ranges valid).0 kept x);
      covered = λ x.
          covers-merge_ranges x s.ranges
          ∙ covers_iff_multiplicity x s.ranges
          ∙ ap (ltb 0) (per_row x);
      counted = sym same;
      canonical = merge_ranges-IsSeparated s.ranges valid;
    }

-- If the loss rows give no error, then every event loss drops as many sequences as its range
-- holds, no sequence is declared twice, the merged ranges cover exactly the declared sequences
-- in canonical form, and the declared count is their number.
pub declared_losses_exact :
    (rows : List Row) (ls : List Loss) (d : Losses)
    → Declares rows ls
    → declared_loss_ranges rows ≡ ok d
    → d.errors ≡ []
    → AreAccounted ls d
unfolding declared_loss_ranges
declared_losses_exact rows ls d h k e = elim (Result-cases (declare_rows 2 rows no_losses)) [
  | inl (s, is) ↦
      let result : finish_losses s ≡ d = ground arith in
      let clean : (s.errors ≡ []) × (pos (range_count (merge_ranges s.ranges)) ≡ s.declared_count) =
        finish_losses-clean s (ap (λ v. v.errors) result ∙ e) in
      rw (← result) (
        finish-AreAccounted ls s (declare_rows-AreClean 2 rows ls no_losses s h is clean.0) clean.1)
  | inr (f, is) ↦ absurd (ground arith)
]
