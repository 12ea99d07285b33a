-- ===== src/EventLoss/Climbing.antt =====
-- Logs whose event sequences climb without going over the top
-- (scripts/phase3/reconcile_p3b_backpressure.py, `observed_missing_ranges`).
use hpm5321_can_analyzer.Common.{
  ℕ, ◌+◌, ◌≤◌, ◌<◌, ◌≡◌, refl, ◌∙◌, inl, inr, ◌⊎◌, Bool, false, not, ◌&&◌, List, [], ◌∷◌, ◌++◌,
  arith, leb, ◌==◌, any, Bool-cases,
}
use hpm5321_can_analyzer.Common.Int.{pos}
use hpm5321_can_analyzer.Common.Python.{ok, Row, int_field}
use hpm5321_can_analyzer.EventLoss.Ranges.{
  Range, next_nonzero, previous_nonzero, split_range, merge_ranges,
}
use hpm5321_can_analyzer.EventLoss.Merge.{covers}
use hpm5321_can_analyzer.EventLoss.Observed.{
  Observed, distance, no_events, track_gap, observe_sequence, observe_row, observe_rows,
  observed_missing_ranges,
}
use hpm5321_can_analyzer.EventLoss.Gaps.{
  IsSequence, Logged, in_gaps, split-between, observe_row-logged, observed-covers-gaps,
}

-- Every sequence lies above the one before, by at most 2 ^ 31.
abbrev pub Climbs : ℕ → List ℕ → Type 0
Climbs previous [] = Unit
Climbs previous (n ∷ ns) = (previous < n) × (n ≤ previous + 2147483648) × Climbs n ns

-- The last sequence.
abbrev pub last_of : ℕ → List ℕ → ℕ
last_of a [] = a
last_of a (n ∷ ns) = last_of n ns

abbrev pub holds : ℕ → List ℕ → Bool
holds x ns = any (λ k. k == x) ns

abbrev AllLe : ℕ → List ℕ → Type 0
AllLe n [] = Unit
AllLe n (k ∷ ks) = (k ≤ n) × AllLe n ks

AllLe-weaken : (m n : ℕ) (ks : List ℕ) → m ≤ n → AllLe m ks → AllLe n ks
AllLe-weaken m n [] h a = tt
AllLe-weaken m n (k ∷ ks) h a = (omega arith, AllLe-weaken m n ks h a.1)

not_holds : (m n : ℕ) (ks : List ℕ) → AllLe m ks → m < n → holds n ks ≡ false
not_holds m n [] a h = refl
not_holds m n (k ∷ ks) a h = ground (arith, not_holds m n ks a.1 h)

-- The first event may be any.
abbrev IsNear : ℕ → ℕ → Type 0
IsNear p n = (p ≡ 0) ⊎ (n ≤ p + 2147483648)

near :
    (p n : ℕ)
    → IsSequence n
    → p < n
    → IsNear p n
    → (p == 0) ≡ false
    → leb 0x80000000 (distance n (next_nonzero p)) ≡ false
unfolding next_nonzero
near p n q h k later = ground arith

track_gap-Climbs :
    (n : ℕ) (s : Observed)
    → IsSequence n
    → s.previous < n
    → IsNear s.previous n
    → (t : Observed) × (track_gap n s ≡ ok t) × (t.errors ≡ s.errors) × (t.seen ≡ s.seen)
unfolding track_gap
track_gap-Climbs n s q h k = elim (Bool-cases (s.previous == 0)) [
  | inl first ↦ (s, rw first refl, refl, refl)
  | inr later ↦ elim (Bool-cases (n == next_nonzero s.previous)) [
    | inl next ↦ (s, rw (later, next) refl, refl, refl)
    | inr gap ↦ (
      record s {
        missing = s.missing ++ split_range (next_nonzero s.previous) (previous_nonzero n);
      },
      rw (later, gap, near s.previous n q h k later, split-between s.previous n q) refl,
      refl,
      refl,
    )
  ]
]

-- A climbing event is no repeat, so the row only moves the state on.
observe_row-Climbs :
    (index n : ℕ) (row : Row) (s : Observed)
    → int_field row "event_sequence" ≡ ok (pos n)
    → IsSequence n
    → s.previous < n
    → IsNear s.previous n
    → AllLe s.previous s.seen
    → (u : Observed) × (observe_row index row s ≡ ok u)
      × (u.errors ≡ s.errors)
      × (u.previous ≡ n)
      × AllLe n u.seen
unfolding observe_sequence
observe_row-Climbs index n row s e q h k a =
    let (t, tracked, same, seen) = track_gap-Climbs n s q h k in
    (
      record t { previous = n; seen = n ∷ t.seen },
      observe_row-logged index n row s e q ∙ rw (not_holds s.previous n s.seen a h, tracked) refl,
      same,
      refl,
      (omega arith, rw seen (AllLe-weaken s.previous n s.seen (omega arith) a)),
    )

observe_rows-Climbs :
    (index : ℕ) (rows : List Row) (ns : List ℕ) (s : Observed)
    → Logged rows ns
    → Climbs s.previous ns
    → AllLe s.previous s.seen
    → (t : Observed) × (observe_rows index rows s ≡ ok t) × (t.errors ≡ s.errors)
unfolding observe_rows
observe_rows-Climbs index [] [] s l c a = (s, refl, refl)
observe_rows-Climbs index [] (n ∷ ns) s l c a = absurd l
observe_rows-Climbs index (row ∷ rows) [] s l c a = absurd l
observe_rows-Climbs index (row ∷ rows) (n ∷ ns) s l c a =
    let (u, one, same, at_n, below) = observe_row-Climbs index n row s l.0 l.1 c.0 (inr c.1) a in
    let (v, rest, none_new) =
      observe_rows-Climbs (index + 1) rows ns u l.2 (rw at_n c.2) (rw at_n below) in
    (v, rw one rest, none_new ∙ same)

Climbs-le : (a : ℕ) (ns : List ℕ) → Climbs a ns → a ≤ last_of a ns
Climbs-le a [] c = omega arith
Climbs-le a (n ∷ ns) c = omega (arith, Climbs-le n ns c.2)

not_holds_above : (x a : ℕ) (ns : List ℕ) → Climbs a ns → x ≤ a → holds x ns ≡ false
not_holds_above x a [] c h = refl
not_holds_above x a (n ∷ ns) c h = ground (arith, not_holds_above x n ns c.2)

-- The numbers passed by a climbing list: those between its ends that it does not hold.
in_gaps-Climbs :
    (x a : ℕ) (ns : List ℕ)
    → Climbs a ns
    → in_gaps x (a ∷ ns) ≡ (leb a x && leb x (last_of a ns) && not (holds x (a ∷ ns)))
in_gaps-Climbs x a [] c = ground arith
in_gaps-Climbs x a (n ∷ ns) c =
    ground (arith, in_gaps-Climbs x n ns c.2, Climbs-le n ns c.2, not_holds_above x n ns c.2)

-- A climbing log is read without error, and the missing ranges cover a number exactly if it lies
-- between the first and the last event and is no event.
pub observed_accounts_for_all :
    (events : List Row) (a : ℕ) (ns : List ℕ)
    → Logged events (a ∷ ns)
    → Climbs a ns
    → (ranges : List Range) × (observed_missing_ranges events ≡ ok (ranges, []))
      × ((x : ℕ) → covers x ranges ≡ (leb a x && leb x (last_of a ns) && not (holds x (a ∷ ns))))
unfolding observed_missing_ranges observe_rows
observed_accounts_for_all [] a ns l c = absurd l
observed_accounts_for_all (row ∷ rows) a ns l c =
    let (s, first, s_clean, at_a, below) =
      observe_row-Climbs 2 a row no_events l.0 l.1 l.1.0 (inl refl) tt in
    let (t, rest, t_clean) = observe_rows-Climbs 3 rows ns s l.2 (rw at_a c) (rw at_a below) in
    let returns : observed_missing_ranges (row ∷ rows) ≡ ok (merge_ranges t.missing, []) =
      rw (first, rest, t_clean, s_clean) refl in
    (
      merge_ranges t.missing,
      returns,
      λ x.
          observed-covers-gaps (row ∷ rows) (a ∷ ns) (merge_ranges t.missing) l returns x
          ∙ in_gaps-Climbs x a ns c,
    )
