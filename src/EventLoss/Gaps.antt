-- ===== src/EventLoss/Gaps.antt =====
-- The gaps between consecutive events of a log
-- (scripts/phase3/reconcile_p3b_backpressure.py, `observed_missing_ranges`).
use hpm5321_can_analyzer.Common.{
  ℕ, ◌+◌, ◌≤◌, ◌≡◌, ◌≢◌, refl, inl, inr, Bool, false, ◌&&◌, ◌||◌, List, [], ◌∷◌, ◌++◌, arith, ltb,
  leb, ◌==◌, if◌then◌else◌, append-nil_left, Bool-cases,
}
use hpm5321_can_analyzer.Common.Int.{pos}
use hpm5321_can_analyzer.Common.Python.{ok, ◌>>=◌, Result-cases, Row, int_field}
use hpm5321_can_analyzer.EventLoss.Ranges.{
  Range, u32_max, next_nonzero, previous_nonzero, in_u32_range, split_nonzero_range, split_range,
}
use hpm5321_can_analyzer.EventLoss.Merge.{covers, covers-merge_ranges}
use hpm5321_can_analyzer.EventLoss.Observed.{
  Observed, non_monotonic, repeated, no_events, distance, track_gap, note_repeat, observe_sequence,
  observe_row, observe_rows, observed_missing_ranges,
}

-- A nonzero 32-bit number.
abbrev pub IsSequence : ℕ → Type 0
IsSequence n = (1 ≤ n) × (n ≤ u32_max)

-- The rows carry these event sequences.
abbrev pub Logged : List Row → List ℕ → Type 0
Logged [] [] = Unit
Logged (row ∷ rows) (n ∷ ns) =
    (int_field row "event_sequence" ≡ ok (pos n)) × IsSequence n × Logged rows ns
Logged [] (n ∷ ns) = ⊥
Logged (row ∷ rows) [] = ⊥

-- `x` is passed when the counter goes from `a` up to `b`, over the top where `b` is below `a`.
abbrev pub in_gap : ℕ → ℕ → ℕ → Bool
in_gap x a b =
    if ltb a b then ltb a x && ltb x b else ltb a x && leb x u32_max || leb 1 x && ltb x b

-- `x` is passed between two consecutive sequences of the list.
abbrev pub in_gaps : ℕ → List ℕ → Bool
in_gaps x [] = false
in_gaps x (a ∷ []) = false
in_gaps x (a ∷ b ∷ ns) = in_gap x a b || in_gaps x (b ∷ ns)

covers-append : (x : ℕ) (rs ss : List Range) → covers x (rs ++ ss) ≡ (covers x rs || covers x ss)
unfolding covers
covers-append x [] ss = refl
covers-append x (r ∷ rs) ss = ground (arith, covers-append x rs ss)

covers_nil : (x : ℕ) → covers x [] ≡ false
unfolding covers
covers_nil x = refl

-- The range from the successor of `a` to the predecessor of `b` is the gap, if it is not empty.
covers-split_range :
    (x a b : ℕ)
    → IsSequence a
    → IsSequence b
    → b ≢ next_nonzero a
    → a ≢ b
    → covers x (split_range (next_nonzero a) (previous_nonzero b)) ≡ in_gap x a b
unfolding covers next_nonzero previous_nonzero
covers-split_range x a b p q h k = ground arith

in_gap-next : (x a : ℕ) → IsSequence a → in_gap x a (next_nonzero a) ≡ false
unfolding next_nonzero
in_gap-next x a p = ground arith

-- A repeat of the event before counts as a step back.
distance_self :
    (a b : ℕ) → IsSequence a → leb 0x80000000 (distance b (next_nonzero a)) ≡ false → a ≢ b
unfolding next_nonzero
distance_self a b p h = ground arith

next_nonzero-IsSequence : (a : ℕ) → IsSequence (next_nonzero a)
unfolding next_nonzero
next_nonzero-IsSequence a = ground arith

previous_nonzero-IsSequence : (b : ℕ) → IsSequence b → IsSequence (previous_nonzero b)
unfolding previous_nonzero
previous_nonzero-IsSequence b p = ground arith

-- The split never raises its ValueError here.
pub split-between :
    (a b : ℕ)
    → IsSequence b
    → split_nonzero_range (pos (next_nonzero a)) (pos (previous_nonzero b))
      ≡ ok (split_range (next_nonzero a) (previous_nonzero b))
unfolding split_nonzero_range
split-between a b q = ground (arith, next_nonzero-IsSequence a, previous_nonzero-IsSequence b q)

-- What one event adds to the covered sequences, if it adds no error.
abbrev passed : ℕ → ℕ → ℕ → Bool
passed x previous b = if previous == 0 then false else in_gap x previous b

abbrev IsPrevious : ℕ → Type 0
IsPrevious n = n ≤ u32_max

track_gap-covers :
    (x b : ℕ) (s t : Observed)
    → IsSequence b
    → IsPrevious s.previous
    → track_gap b s ≡ ok t
    → t.errors ≡ []
    → (s.errors ≡ []) × (covers x t.missing ≡ (covers x s.missing || passed x s.previous b))
unfolding track_gap
track_gap-covers x b s t q p h e = elim (Bool-cases (s.previous == 0)) [
  | inl first ↦ ground arith
  | inr later ↦
      let a : IsSequence s.previous = (ground arith, p) in
      ground (
        arith,
        split-between s.previous b q,
        covers-append x s.missing (split_range (next_nonzero s.previous) (previous_nonzero b)),
        covers-split_range x s.previous b a q,
        in_gap-next x s.previous a,
        distance_self s.previous b a,
        append-nil_left s.errors (non_monotonic s.previous b ∷ []),
      )
]

-- A repeat is noted, and nothing else changes.
note_repeat_keeps :
    (n : ℕ) (s : Observed)
    → ((note_repeat n s).missing ≡ s.missing)
      × ((note_repeat n s).previous ≡ s.previous)
      × ((note_repeat n s).errors ≡ [] → s.errors ≡ [])
note_repeat_keeps n s = ground (arith, append-nil_left s.errors (repeated n ∷ []))

observe_sequence-covers :
    (x n : ℕ) (s u : Observed)
    → IsSequence n
    → IsPrevious s.previous
    → observe_sequence n s ≡ ok u
    → u.errors ≡ []
    → (s.errors ≡ [])
      × (covers x u.missing ≡ (covers x s.missing || passed x s.previous n))
      × (u.previous ≡ n)
unfolding observe_sequence
observe_sequence-covers x n s u q p h e = go (note_repeat n s) (note_repeat_keeps n s) h
  where
    go :
        (v : Observed)
        → (v.missing ≡ s.missing) × (v.previous ≡ s.previous) × (v.errors ≡ [] → s.errors ≡ [])
        → (track_gap n v >>= λ t. ok (record t { previous = n; seen = n ∷ t.seen })) ≡ ok u
        → (s.errors ≡ [])
          × (covers x u.missing ≡ (covers x s.missing || passed x s.previous n))
          × (u.previous ≡ n)
    go v keeps k = elim (Result-cases (track_gap n v)) [
      | inl (t, is) ↦
          let exact = track_gap-covers x n v t q (rw (keeps.1) p) is in ground (arith, exact)
      | inr (f, is) ↦ ground arith
    ]

-- The list with the sequence before it, if there is one.
abbrev from_previous : ℕ → List ℕ → List ℕ
from_previous previous ns = if previous == 0 then ns else previous ∷ ns

pub in_gaps-from_previous :
    (x p n : ℕ) (ns : List ℕ)
    → 1 ≤ n
    → in_gaps x (from_previous p (n ∷ ns)) ≡ (passed x p n || in_gaps x (from_previous n ns))
in_gaps-from_previous x p n ns h = ground arith

pub observe_row-logged :
    (index n : ℕ) (row : Row) (s : Observed)
    → int_field row "event_sequence" ≡ ok (pos n)
    → IsSequence n
    → observe_row index row s ≡ observe_sequence n s
unfolding observe_row in_u32_range
observe_row-logged index n row s e q = rw (e, observe_row) (ground arith)

pub observe_sequence-previous :
    (n : ℕ) (s u : Observed) → observe_sequence n s ≡ ok u → u.previous ≡ n
unfolding observe_sequence
observe_sequence-previous n s u h = elim (Result-cases (track_gap n (note_repeat n s))) [
  | inl (t, is) ↦ ground arith
  | inr (f, is) ↦ ground arith
]

observe_rows-covers :
    (x index : ℕ) (rows : List Row) (ns : List ℕ) (s t : Observed)
    → Logged rows ns
    → IsPrevious s.previous
    → observe_rows index rows s ≡ ok t
    → t.errors ≡ []
    → (s.errors ≡ [])
      × (covers x t.missing ≡ (covers x s.missing || in_gaps x (from_previous s.previous ns)))
unfolding observe_rows
observe_rows-covers x index [] [] s t l p h e = ground arith
observe_rows-covers x index [] (n ∷ ns) s t l p h e = absurd l
observe_rows-covers x index (row ∷ rows) [] s t l p h e = absurd l
observe_rows-covers x index (row ∷ rows) (n ∷ ns) s t l p h e =
    elim (Result-cases (observe_sequence n s)) [
      | inl (u, is) ↦
          let same : u.previous ≡ n = observe_sequence-previous n s u is in
          let rest =
            observe_rows-covers x (index + 1) rows ns u t l.2 (omega (arith, same, l.1.1)) in
          ground (
            arith,
            rest,
            observe_row-logged index n row s l.0 l.1,
            observe_sequence-covers x n s u l.1 p is,
            in_gaps-from_previous x s.previous n ns,
          )
      | inr (f, is) ↦ ground (arith, observe_row-logged index n row s l.0 l.1)
    ]

-- On a log of event sequences that gives no error, the missing ranges cover exactly the sequences
-- that the counter passes between two consecutive events.
pub observed-covers-gaps :
    (events : List Row) (ns : List ℕ) (ranges : List Range)
    → Logged events ns
    → observed_missing_ranges events ≡ ok (ranges, [])
    → (x : ℕ) → covers x ranges ≡ in_gaps x ns
unfolding observed_missing_ranges
observed-covers-gaps events ns ranges l h x =
    elim (Result-cases (observe_rows 2 events no_events)) [
      | inl (t, is) ↦ ground (
        arith,
        observe_rows-covers x 2 events ns no_events t l (omega arith) is,
        covers-merge_ranges x t.missing,
        covers_nil x,
      )
      | inr (f, is) ↦ ground arith
    ]
