-- ===== src/EventLoss/LossRows.antt =====
-- Loss rows without an error, row by row
-- (scripts/phase3/reconcile_p3b_backpressure.py, the loop of `declared_loss_ranges`).
use hpm5321_can_analyzer.Common.{
  ℕ, ◌+◌, ◌-◌, ◌≤◌, ◌≡◌, refl, sym, ◌∙◌, ap, inl, inr, Bool, true, false, ◌&&◌, ◌||◌, List, [], ◌∷◌,
  ◌++◌, arith, leb, if◌then◌else◌, append-nil_right, Bool-cases,
}
use hpm5321_can_analyzer.Common.Int.{ℤ, pos, negsuc, pos_part, ◌+ℤ◌, eqb_ℤ, eqb_ℤ→eq}
use hpm5321_can_analyzer.Common.Python.{ok, Row}
use hpm5321_can_analyzer.EventLoss.Ranges.{
  Range, u32_max, in_u32_range, split_nonzero_range, split_range, range_count,
}
use hpm5321_can_analyzer.EventLoss.Merge.{AreRanges}
use hpm5321_can_analyzer.EventLoss.Count.{to_ℕ}
use hpm5321_can_analyzer.EventLoss.Observed.{count_mismatch, bad_loss_range}
use hpm5321_can_analyzer.EventLoss.Declared.{
  Loss, Declared, note_error, add_split, read_loss, declare, declare_row, declare_rows,
}

-- The rows carry these losses.
abbrev pub Declares : List Row → List Loss → Type 0
Declares [] [] = Unit
Declares (row ∷ rows) (l ∷ ls) = (read_loss row ≡ ok l) × Declares rows ls
Declares [] (l ∷ ls) = ⊥
Declares (row ∷ rows) [] = ⊥

abbrev pub is_event_loss : Loss → Bool
is_event_loss l = eqb_ℤ l.domain (pos 1)

-- `x` lies in the cyclic range from `a` to `b`.
abbrev pub in_cycle : ℕ → ℕ → ℕ → Bool
in_cycle x a b =
    if leb a b then leb a x && leb x b else leb a x && leb x u32_max || leb 1 x && leb x b

-- How many sequences the cyclic range from `a` to `b` holds.
abbrev pub cycle_length : ℕ → ℕ → ℕ
cycle_length a b = if leb a b then b + 1 - a else (u32_max + 1 - a) + b

-- How many event losses declare the sequence.
abbrev pub declarations : ℕ → List Loss → ℕ
declarations x [] = 0
declarations x (l ∷ ls) =
    to_ℕ (is_event_loss l && in_cycle x (pos_part l.first) (pos_part l.last)) + declarations x ls

-- An event loss has two ends in range, and drops as many sequences as its range holds.
abbrev pub IsExact : Loss → Type 0
IsExact l =
    is_event_loss l ≡ true
    → (in_u32_range l.first ≡ true)
      × (in_u32_range l.last ≡ true)
      × (l.dropped ≡ pos (cycle_length (pos_part l.first) (pos_part l.last)))

abbrev pub AllExact : List Loss → Type 0
AllExact [] = Unit
AllExact (l ∷ ls) = IsExact l × AllExact ls

-- The ranges that a row adds.
abbrev pub row_ranges : Loss → List Range
row_ranges l = if is_event_loss l then split_range (pos_part l.first) (pos_part l.last) else []

-- What a clean row does.
record IsClean (l : Loss) (s t : Declared) : Type 0 where
  before : s.errors ≡ []
  ranges : t.ranges ≡ s.ranges ++ row_ranges l
  count : t.declared_count ≡ s.declared_count +ℤ pos (range_count (row_ranges l))
  exact : IsExact l
  valid : AreRanges (row_ranges l)

abbrev ends_valid : Loss → Bool
ends_valid l = in_u32_range l.first && in_u32_range l.last

declare_other :
    (index : ℕ) (l : Loss) (s : Declared) → is_event_loss l ≡ false → declare index l s ≡ s
unfolding declare
declare_other index l s h = ground arith

declare_split :
    (index : ℕ) (l : Loss) (s : Declared)
    → is_event_loss l ≡ true
    → ends_valid l ≡ true
    → declare index l s
      ≡ add_split index l.dropped (split_range (pos_part l.first) (pos_part l.last)) s
unfolding declare split_nonzero_range
declare_split index l s h k = rw (h, k) refl

declare_bad :
    (index : ℕ) (l : Loss) (s : Declared)
    → is_event_loss l ≡ true
    → ends_valid l ≡ false
    → declare index l s ≡ note_error (bad_loss_range index) s
unfolding declare split_nonzero_range
declare_bad index l s h k = rw (h, k) refl

add-zero_ℤ : (a : ℤ) → a +ℤ pos 0 ≡ a
add-zero_ℤ (pos n) = ground arith
add-zero_ℤ (negsuc n) = ground arith

append_nil : (rs : List Range) → rs ++ [] ≡ rs
append_nil [] = refl
append_nil (r ∷ rs) = ap (λ l. r ∷ l) (append_nil rs)

in_u32_range_bounds : (n : ℤ) → in_u32_range n ≡ true → (1 ≤ pos_part n) × (pos_part n ≤ u32_max)
unfolding in_u32_range
in_u32_range_bounds (pos n) h = ground arith
in_u32_range_bounds (negsuc n) h = cc

split_range-AreRanges : (a b : ℕ) → a ≤ u32_max → 1 ≤ b → AreRanges (split_range a b)
split_range-AreRanges a b h k = ground arith

range_count-split_range : (a b : ℕ) → range_count (split_range a b) ≡ cycle_length a b
unfolding range_count
range_count-split_range a b = ground arith

-- Where the count agrees, the row adds its ranges and no error.
add_split-clean :
    (index : ℕ) (dropped : ℤ) (split : List Range) (s : Declared)
    → (add_split index dropped split s).errors ≡ []
    → (s.errors ≡ [])
      × (eqb_ℤ dropped (pos (range_count split)) ≡ true)
      × (add_split index dropped split s
          ≡ record s { ranges = s.ranges ++ split; declared_count = s.declared_count +ℤ dropped })
add_split-clean index dropped split s h =
    elim (Bool-cases (eqb_ℤ dropped (pos (range_count split)))) [
      | inl same ↦ ground arith
      | inr other ↦
          ground
            (arith, append-nil_right s.errors (count_mismatch index dropped (range_count split)))
    ]

split-IsClean :
    (index : ℕ) (l : Loss) (s t : Declared)
    → is_event_loss l ≡ true
    → ends_valid l ≡ true
    → add_split index l.dropped (split_range (pos_part l.first) (pos_part l.last)) s ≡ t
    → t.errors ≡ []
    → IsClean l s t
split-IsClean index l s t event good d h =
    let split : List Range = split_range (pos_part l.first) (pos_part l.last) in
    let (before, same, result) =
      add_split-clean index l.dropped split s (ap (λ u. u.errors) d ∙ h) in
    let dropped : l.dropped ≡ pos (range_count split) =
      eqb_ℤ→eq l.dropped (pos (range_count split)) same in
    let ends : (in_u32_range l.first ≡ true) × (in_u32_range l.last ≡ true) = ground arith in
    record {
      before = before;
      ranges = rw event (ap (λ u. u.ranges) (sym d ∙ result));
      count =
          rw event
            (ap (λ u. u.declared_count) (sym d ∙ result) ∙ ap (λ n. s.declared_count +ℤ n) dropped);
      exact = λ e. (
        ends.0,
        ends.1,
        dropped ∙ ap pos (range_count-split_range (pos_part l.first) (pos_part l.last)),
      );
      valid = rw event (
          split_range-AreRanges (pos_part l.first) (pos_part l.last)
            (in_u32_range_bounds l.first ends.0).1 (in_u32_range_bounds l.last ends.1).0);
    }

declare-IsClean :
    (index : ℕ) (l : Loss) (s t : Declared) → declare index l s ≡ t → t.errors ≡ [] → IsClean l s t
unfolding range_count
declare-IsClean index l s t d h = elim (Bool-cases (is_event_loss l)) [
  | inl event ↦ elim (Bool-cases (ends_valid l)) [
    | inl good ↦
        split-IsClean index l s t event good (sym (declare_split index l s event good) ∙ d) h
    | inr bad ↦ absurd (
        append-nil_right s.errors (bad_loss_range index)
          (ap (λ u. u.errors) (sym (declare_bad index l s event bad) ∙ d) ∙ h))
  ]
  | inr other ↦
      let same : s ≡ t = sym (declare_other index l s other) ∙ d in
      rw (← same) (record {
        before = ap (λ u. u.errors) same ∙ h;
        ranges = rw other (sym (append_nil s.ranges));
        count = rw other (sym (add-zero_ℤ s.declared_count));
        exact = λ e. cc;
        valid = rw other tt;
      })
]

-- The ranges of all rows.
abbrev pub all_ranges : List Loss → List Range
all_ranges [] = []
all_ranges (l ∷ ls) = row_ranges l ++ all_ranges ls

range_count-append : (rs ss : List Range) → range_count (rs ++ ss) ≡ range_count rs + range_count ss
unfolding range_count
range_count-append [] ss = omega arith
range_count-append (r ∷ rs) ss = omega (arith, range_count-append rs ss)

AreRanges-append : (rs ss : List Range) → AreRanges rs → AreRanges ss → AreRanges (rs ++ ss)
AreRanges-append [] ss h k = k
AreRanges-append (r ∷ rs) ss h k = (h.0, AreRanges-append rs ss h.1 k)

append_assoc_ranges : (rs ss ts : List Range) → (rs ++ ss) ++ ts ≡ rs ++ (ss ++ ts)
append_assoc_ranges [] ss ts = refl
append_assoc_ranges (r ∷ rs) ss ts = ap (λ l. r ∷ l) (append_assoc_ranges rs ss ts)

-- What clean rows do together.
pub record AreClean (ls : List Loss) (s t : Declared) : Type 0 where
  pub before : s.errors ≡ []
  pub ranges : t.ranges ≡ s.ranges ++ all_ranges ls
  pub count : t.declared_count ≡ s.declared_count +ℤ pos (range_count (all_ranges ls))
  pub exact : AllExact ls
  pub valid : AreRanges (all_ranges ls)

add_assoc_pos : (a : ℤ) (m n : ℕ) → a +ℤ pos m +ℤ pos n ≡ a +ℤ pos (m + n)
add_assoc_pos (pos a) m n = ground arith
add_assoc_pos (negsuc a) m n = ground arith

AreClean-cons :
    (l : Loss) (ls : List Loss) (s u t : Declared)
    → IsClean l s u
    → AreClean ls u t
    → AreClean (l ∷ ls) s t
AreClean-cons l ls s u t one rest = record {
  before = one.before;
  ranges =
      rest.ranges
      ∙ ap (λ rs. rs ++ all_ranges ls) one.ranges
      ∙ append_assoc_ranges s.ranges (row_ranges l) (all_ranges ls);
  count =
      rest.count
      ∙ ap (λ n. n +ℤ pos (range_count (all_ranges ls))) one.count
      ∙ add_assoc_pos s.declared_count (range_count (row_ranges l)) (range_count (all_ranges ls))
      ∙ ap (λ n. s.declared_count +ℤ pos n)
          (sym (range_count-append (row_ranges l) (all_ranges ls)));
  exact = (one.exact, rest.exact);
  valid = AreRanges-append (row_ranges l) (all_ranges ls) one.valid rest.valid;
}

declare_row-declares :
    (index : ℕ) (l : Loss) (row : Row) (s : Declared)
    → read_loss row ≡ ok l
    → declare_row index row s ≡ ok (declare index l s)
unfolding declare_row
declare_row-declares index l row s h = rw (h, declare_row) refl

pub declare_rows-AreClean :
    (index : ℕ) (rows : List Row) (ls : List Loss) (s t : Declared)
    → Declares rows ls
    → declare_rows index rows s ≡ ok t
    → t.errors ≡ []
    → AreClean ls s t
unfolding declare_rows range_count
declare_rows-AreClean index [] [] s t d h e =
    let same : s ≡ t = ground arith in
    record {
      before = ap (λ u. u.errors) same ∙ e;
      ranges = ap (λ u. u.ranges) (sym same) ∙ sym (append_nil s.ranges);
      count = ap (λ u. u.declared_count) (sym same) ∙ sym (add-zero_ℤ s.declared_count);
      exact = tt;
      valid = tt;
    }
declare_rows-AreClean index [] (l ∷ ls) s t d h e = absurd d
declare_rows-AreClean index (row ∷ rows) [] s t d h e = absurd d
declare_rows-AreClean index (row ∷ rows) (l ∷ ls) s t d h e =
    let u : Declared = declare index l s in
    let step : declare_row index row s ≡ ok u = declare_row-declares index l row s d.0 in
    let rest : AreClean ls u t =
      declare_rows-AreClean (index + 1) rows ls u t d.1 (rw step at h) e in
    AreClean-cons l ls s u t (declare-IsClean index l s u refl rest.before) rest
