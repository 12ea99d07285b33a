-- ===== src/EventLoss/Examples.antt =====
-- A small backpressure run: the theorems about the reconciliation at it, and tests.
use hpm5321_can_analyzer.Common.{
  ℕ, ◌≤◌, ◌≡◌, ◌↔◌, refl, String, true, false, not, ◌&&◌, some, List, [], ◌∷◌, arith, leb,
}
use hpm5321_can_analyzer.Common.Int.{pos}
use hpm5321_can_analyzer.Common.Json.{
  integer, object, Fields, end, field, get_or, get, eq_int, to_int, as_object,
}
use hpm5321_can_analyzer.Common.Python.{ok, Row, int_field}
use hpm5321_can_analyzer.EventLoss.Ranges.{
  Range, range, next_nonzero, previous_nonzero, split_nonzero_range, sorted, merge_ranges,
  range_count,
}
use hpm5321_can_analyzer.EventLoss.Merge.{
  covers, IsSeparated, covers-merge_ranges, merge_ranges-IsSeparated,
}
use hpm5321_can_analyzer.EventLoss.Canonical.{SameCover, merge_ranges-eq_iff}
use hpm5321_can_analyzer.EventLoss.Count.{multiplicity, range_count-merge_eq_iff}
use hpm5321_can_analyzer.EventLoss.Observed.{
  track_gap, observe_sequence, observe_row, observe_rows, observed_missing_ranges,
}
use hpm5321_can_analyzer.EventLoss.Gaps.{Logged, in_gaps, observed-covers-gaps}
use hpm5321_can_analyzer.EventLoss.Climbing.{holds, observed_accounts_for_all}
use hpm5321_can_analyzer.EventLoss.Declared.{
  Loss, read_loss, declare, declare_row, declare_rows, finish_losses, declared_loss_ranges, Losses,
}
use hpm5321_can_analyzer.EventLoss.LossRows.{Declares}
use hpm5321_can_analyzer.EventLoss.Losses.{AreAccounted, declared_losses_exact}
use hpm5321_can_analyzer.EventLoss.Reconcile.{Report, pass, reconcile, exit_code}
use hpm5321_can_analyzer.EventLoss.Verdict.{IsReconciled, reconcile-IsReconciled}

program : Unit {0}
unfolding int_field sorted merge_ranges range_count split_nonzero_range next_nonzero
    previous_nonzero track_gap observe_sequence observe_row observe_rows observed_missing_ranges
    read_loss declare declare_row declare_rows finish_losses declared_loss_ranges get get_or eq_int
    to_int as_object reconcile exit_code
program = tt

abbrev event : String → String → Row
event sequence kind = ("event_sequence", some sequence) ∷ ("message_type", some kind) ∷ []

abbrev loss : String → String → String → String → String → Row
loss sequence domain first last dropped =
    ("event_sequence", some sequence)
    ∷ ("sequence_domain", some domain)
    ∷ ("first_dropped_sequence", some first)
    ∷ ("last_dropped_sequence", some last)
    ∷ ("dropped_count", some dropped)
    ∷ []

-- Events 3, 4, 8, 9: 5, 6 and 7 are lost, and event 8 declares it.
abbrev events : List Row
events = event "3" "32769" ∷ event " +4" "32769" ∷ event "8" "32773" ∷ event "9" "32769" ∷ []

abbrev losses : List Row
losses = loss "8" "1" "5" "7" "3" ∷ loss "8" "2" "1" "9" "9" ∷ []

abbrev loss_values : List Loss
loss_values =
    record { domain = pos 1; first = pos 5; last = pos 7; dropped = pos 3 }
    ∷ record { domain = pos 2; first = pos 1; last = pos 9; dropped = pos 9 }
    ∷ []

abbrev summary : Fields
summary = field "device_drop_total" (integer (pos 0)) (
    field "measurement_queue_drops" (integer (pos 0)) (
      field "measurement_ring_drops" (integer (pos 0))
        (field "forward_missing_records" (integer (pos 9)) end)))

abbrev frames : List Row
frames = event "9" "32769" ∷ []

events-Logged : Logged events (3 ∷ 4 ∷ 8 ∷ 9 ∷ [])
unfolding program
events-Logged =
    ((refl, omega arith, (refl, omega arith, (refl, omega arith, (refl, omega arith, tt)))))

losses-Declares : Declares losses loss_values
unfolding program
losses-Declares = (refl, (refl, tt))

observed-events : observed_missing_ranges events ≡ ok (range 5 7 ∷ [], [])
unfolding program
observed-events = refl

wrapped_events :
    observed_missing_ranges (event "4294967294" "1" ∷ event "2" "1" ∷ [])
    ≡ ok (range 1 1 ∷ range 4294967295 4294967295 ∷ [], [])
unfolding program
wrapped_events = refl

covers-merge_ranges_example :
    covers 10 (merge_ranges (range 5 9 ∷ range 1 2 ∷ range 8 12 ∷ []))
    ≡ covers 10 (range 5 9 ∷ range 1 2 ∷ range 8 12 ∷ [])
covers-merge_ranges_example = covers-merge_ranges 10 (range 5 9 ∷ range 1 2 ∷ range 8 12 ∷ [])

merge_ranges-eq_iff_example :
    (merge_ranges (range 5 9 ∷ range 1 2 ∷ [])
      ≡ merge_ranges (range 1 2 ∷ range 5 6 ∷ range 6 9 ∷ []))
    ↔ SameCover (range 5 9 ∷ range 1 2 ∷ []) (range 1 2 ∷ range 5 6 ∷ range 6 9 ∷ [])
merge_ranges-eq_iff_example =
    merge_ranges-eq_iff (range 5 9 ∷ range 1 2 ∷ []) (range 1 2 ∷ range 5 6 ∷ range 6 9 ∷ [])
      (omega arith) (omega arith)

merge_ranges-IsSeparated_example : IsSeparated 0 (merge_ranges (range 5 9 ∷ range 8 12 ∷ []))
merge_ranges-IsSeparated_example =
    merge_ranges-IsSeparated (range 5 9 ∷ range 8 12 ∷ []) (omega arith)

range_count-merge_eq_iff_example :
    (range_count (merge_ranges (range 5 9 ∷ range 8 12 ∷ []))
      ≡ range_count (range 5 9 ∷ range 8 12 ∷ []))
    ↔ ((x : ℕ) → multiplicity x (range 5 9 ∷ range 8 12 ∷ []) ≤ 1)
range_count-merge_eq_iff_example =
    range_count-merge_eq_iff (range 5 9 ∷ range 8 12 ∷ []) (omega arith)

observed-covers-gaps_example : covers 6 (range 5 7 ∷ []) ≡ in_gaps 6 (3 ∷ 4 ∷ 8 ∷ 9 ∷ [])
observed-covers-gaps_example =
    observed-covers-gaps events (3 ∷ 4 ∷ 8 ∷ 9 ∷ []) (range 5 7 ∷ []) events-Logged observed-events
      6

observed_accounts_for_all_example :
    (ranges : List Range) × (observed_missing_ranges events ≡ ok (ranges, []))
    × ((x : ℕ) → covers x ranges ≡ (leb 3 x && leb x 9 && not (holds x (3 ∷ 4 ∷ 8 ∷ 9 ∷ []))))
observed_accounts_for_all_example =
    observed_accounts_for_all events 3 (4 ∷ 8 ∷ 9 ∷ []) events-Logged (omega arith)

abbrev declared : Losses
declared = record { merged = range 5 7 ∷ []; declared_count = pos 3; errors = [] }

declared-losses : declared_loss_ranges losses ≡ ok declared
unfolding program
declared-losses = refl

declared_losses_exact_example : AreAccounted loss_values declared
declared_losses_exact_example =
    declared_losses_exact losses loss_values declared losses-Declares declared-losses refl

abbrev report : Report
report = record {
  status = pass;
  usb_backpressure_recovery = true;
  event_sequence_reconciliation = true;
  channel_sequence_reconciliation = pass;
  observed_event_missing_ranges = range 5 7 ∷ [];
  declared_event_loss_ranges = range 5 7 ∷ [];
  observed_event_missing_count = 3;
  declared_event_loss_count = pos 3;
  data_loss_event_count = 1;
  flow_control_event_count = 0;
  channel_missing_records = pos 9;
  channel_domain_declared_drops = pos 9;
  post_loss_frame_event_count = 1;
  limited = false;
  errors = [];
}

reconcile-run : reconcile (object summary) events losses frames ≡ ok report
unfolding program
reconcile-run = refl

exit-run : exit_code report ≡ 0
unfolding program
exit-run = refl

reconcile-IsReconciled_example : IsReconciled summary (3 ∷ 4 ∷ 8 ∷ 9 ∷ []) loss_values report
reconcile-IsReconciled_example =
    reconcile-IsReconciled summary events losses frames report (3 ∷ 4 ∷ 8 ∷ 9 ∷ []) loss_values
      events-Logged losses-Declares reconcile-run exit-run
