-- ===== src/EventLoss/Declared.antt =====
-- The sequences that the DATA_LOSS rows declare lost
-- (scripts/phase3/reconcile_p3b_backpressure.py, `declared_loss_ranges`).
use hpm5321_can_analyzer.Common.{ℕ, ◌+◌, not, List, [], ◌∷◌, ◌++◌, if◌then◌else◌}
use hpm5321_can_analyzer.Common.Int.{ℤ, pos, ◌+ℤ◌, eqb_ℤ}
use hpm5321_can_analyzer.Common.Python.{Result, ok, raised, ◌>>=◌, Row, int_field}
use hpm5321_can_analyzer.EventLoss.Ranges.{Range, split_nonzero_range, merge_ranges, range_count}
use hpm5321_can_analyzer.EventLoss.Observed.{
  LogError, invalid_loss, bad_loss_range, count_mismatch, overlapping_losses, is_caught,
}

-- The four numbers of a row.
pub record Loss : Type 0 where
  pub domain : ℤ
  pub first : ℤ
  pub last : ℤ
  pub dropped : ℤ

unfoldable pub read_loss : Row → Result Loss
read_loss row = do
  domain ← int_field row "sequence_domain"
  first ← int_field row "first_dropped_sequence"
  last ← int_field row "last_dropped_sequence"
  dropped ← int_field row "dropped_count"
  ok (record { domain = domain; first = first; last = last; dropped = dropped })

-- The variables of the loop.
pub record Declared : Type 0 where
  pub ranges : List Range
  pub declared_count : ℤ
  pub errors : List LogError

abbrev pub no_losses : Declared
no_losses = record { ranges = []; declared_count = pos 0; errors = [] }

abbrev pub note_error : LogError → Declared → Declared
note_error e s = record s { errors = s.errors ++ e ∷ [] }

-- The two statements that end the loop's body.
abbrev pub add_split : ℕ → ℤ → List Range → Declared → Declared
add_split index dropped split s =
    let t : Declared =
      if eqb_ℤ dropped (pos (range_count split))
      then s
      else note_error (count_mismatch index dropped (range_count split)) s in
    record t { ranges = t.ranges ++ split; declared_count = t.declared_count +ℤ dropped }

-- The loop's body, for a row whose numbers could be read. The ValueError of the range is caught,
-- and it raises no other.
unfoldable pub declare : ℕ → Loss → Declared → Declared
declare index loss s =
    if not (eqb_ℤ loss.domain (pos 1)) then s else elim (split_nonzero_range loss.first loss.last) [
      | ok split ↦ add_split index loss.dropped split s
      | raised e ↦ note_error (bad_loss_range index) s
    ]

unfoldable pub declare_row : ℕ → Row → Declared → Result Declared
declare_row index row s = elim (read_loss row) [
  | ok loss ↦ ok (declare index loss s)
  | raised e ↦ if is_caught e then ok (note_error (invalid_loss index) s) else raised e
]

unfoldable pub declare_rows : ℕ → List Row → Declared → Result Declared
declare_rows index [] s = ok s
declare_rows index (row ∷ rows) s = do
  s' ← declare_row index row s
  declare_rows (index + 1) rows s'

-- What the function returns.
pub record Losses : Type 0 where
  pub merged : List Range
  pub declared_count : ℤ
  pub errors : List LogError

-- The last test of the function, after the loop.
unfoldable pub finish_losses : Declared → Losses
finish_losses s =
    let merged = merge_ranges s.ranges in
    record {
      merged = merged;
      declared_count = s.declared_count;
      errors =
          if eqb_ℤ (pos (range_count merged)) s.declared_count
          then s.errors
          else s.errors ++ overlapping_losses ∷ [];
    }

unfoldable pub declared_loss_ranges : List Row → Result Losses
declared_loss_ranges losses = do s ← declare_rows 2 losses no_losses; ok (finish_losses s)
