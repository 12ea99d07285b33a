-- ===== src/EventLoss/Observed.antt =====
-- The sequences that the event log misses (scripts/phase3/reconcile_p3b_backpressure.py,
-- `observed_missing_ranges`).
use hpm5321_can_analyzer.Common.{
  ℕ, ◌+◌, ◌-◌, ◌%◌, ◌^◌, Bool, true, false, List, [], ◌∷◌, ◌++◌, any, leb, ◌==◌, if◌then◌else◌,
}
use hpm5321_can_analyzer.Common.Int.{ℤ, pos, pos_part}
use hpm5321_can_analyzer.Common.Python.{
  PyError, key_error, value_error, Result, ok, raised, ◌>>=◌, Row, int_field,
}
use hpm5321_can_analyzer.EventLoss.Ranges.{
  Range, next_nonzero, previous_nonzero, in_u32_range, split_nonzero_range, merge_ranges,
}

-- The error messages of the reconciliation. A number is the row's, the first data row being 2.
pub data LogError : Type 0 where
  invalid_sequence out_of_range : (index : ℕ) → LogError
  repeated : (sequence : ℕ) → LogError
  non_monotonic : (previous sequence : ℕ) → LogError
  invalid_loss bad_loss_range : (index : ℕ) → LogError
  count_mismatch : (index : ℕ) → (dropped : ℤ) → (encoded : ℕ) → LogError
  overlapping_losses loss_events_differ : LogError

-- The variables of the loop.
pub record Observed : Type 0 where
  pub missing : List Range
  pub errors : List LogError
  pub previous : ℕ
  pub seen : List ℕ

abbrev pub no_events : Observed
no_events = record { missing = []; errors = []; previous = 0; seen = [] }

-- `except (KeyError, ValueError)`
abbrev pub is_caught : PyError → Bool
is_caught key_error = true
is_caught value_error = true
is_caught _ = false

abbrev pub note_error : LogError → Observed → Observed
note_error e s = record s { errors = s.errors ++ e ∷ [] }

-- `(sequence - expected) & 0xFFFF_FFFF`
abbrev pub distance : ℕ → ℕ → ℕ
distance sequence expected = (sequence + 2 ^ 32 - expected) % 2 ^ 32

-- The comparison with the event before.
unfoldable pub track_gap : ℕ → Observed → Result Observed
track_gap sequence s =
    if s.previous == 0
    then ok s
    else let expected = next_nonzero s.previous in
      if sequence == expected
      then ok s
      else if leb 0x80000000 (distance sequence expected)
      then ok (note_error (non_monotonic s.previous sequence) s)
      else do
        split ← split_nonzero_range (pos expected) (pos (previous_nonzero sequence))
        ok (record s { missing = s.missing ++ split })

abbrev pub note_repeat : ℕ → Observed → Observed
note_repeat sequence s =
    if any (λ k. k == sequence) s.seen then note_error (repeated sequence) s else s

-- The loop's body from the duplicate test on, for a sequence in range.
unfoldable pub observe_sequence : ℕ → Observed → Result Observed
observe_sequence sequence s = do
  t ← track_gap sequence (note_repeat sequence s)
  ok (record t { previous = sequence; seen = sequence ∷ t.seen })

abbrev pub observe_value : ℕ → ℤ → Observed → Result Observed
observe_value index value s =
    if in_u32_range value
    then observe_sequence (pos_part value) s
    else ok (note_error (out_of_range index) s)

unfoldable pub observe_row : ℕ → Row → Observed → Result Observed
observe_row index row s = elim (int_field row "event_sequence") [
  | ok value ↦ observe_value index value s
  | raised e ↦ if is_caught e then ok (note_error (invalid_sequence index) s) else raised e
]

unfoldable pub observe_rows : ℕ → List Row → Observed → Result Observed
observe_rows index [] s = ok s
observe_rows index (row ∷ rows) s = do
  s' ← observe_row index row s
  observe_rows (index + 1) rows s'

unfoldable pub observed_missing_ranges : List Row → Result (List Range × List LogError)
observed_missing_ranges events = do
  s ← observe_rows 2 events no_events
  ok (merge_ranges s.missing, s.errors)
