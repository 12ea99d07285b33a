-- ===== src/Heartbeat/Check.antt =====
-- Judging a sample (scripts/phase2/collect_heartbeat.py, `validate_sample`).
use hpm5321_can_analyzer.Common.{
  ℕ, ◌+◌, ◌%◌, Bool, not, ◌||◌, Option, none, some, List, [], ◌∷◌, ◌==◌, if◌then◌else◌,
}
use hpm5321_can_analyzer.Common.Int.{ℤ, pos, pos_part, neg_part, ltb_ℤ, leb_ℤ, eqb_ℤ}
use hpm5321_can_analyzer.Heartbeat.Sample.{Field, Sample}

-- The messages of the RuntimeError.
pub data Rejection : Type 0 where
  boot_magic target_fault queue_drop health_stack voter_state missing_voter allocation_open
        allocation_after_freeze mcan_incomplete mcan_irq_priority :
      Rejection
  mcan_count : Field → Rejection
  mcan_queue_drop mcan_error_interrupt mcan_fault_flag mcan_error_counters mcan_frame_failure
        mcan_receiver_stack mcan_controller reset_detected reset_source heartbeat_stuck tick_stuck
        evaluation_stuck :
      Rejection

-- No rejection, or the first one.
abbrev pub Verdict : Type 0
Verdict = Option Rejection

-- `if test: raise RuntimeError(reason)`, and then the rest.
unfoldable pub reject_if : Bool → Rejection → Verdict → Verdict
reject_if test reason rest = if test then some reason else rest

abbrev pub is : ℤ → ℕ → Bool
is value n = eqb_ℤ value (pos n)

-- `value & 1`
abbrev pub low_bit : ℤ → ℕ
low_bit value = (pos_part value + neg_part value) % 2

abbrev pub count_fields : List Field
count_fields =
    Field.mcan_irqs ∷ Field.mcan_submitted ∷ Field.mcan_received ∷ Field.mcan_matched
    ∷ Field.mcan_queue_sends ∷ []

-- The loop over the five counts.
unfoldable pub check_counts : Sample → List Field → Verdict → Verdict
check_counts sample [] rest = rest
check_counts sample (f ∷ fs) rest =
    reject_if (not (is (sample f) 1024)) (mcan_count f) (check_counts sample fs rest)

-- The tests against the sample before.
unfoldable pub check_previous : Sample → Option Sample → Verdict
check_previous sample none = none
check_previous sample (some previous) =
    reject_if (not (eqb_ℤ (sample Field.boot_tick) (previous Field.boot_tick))) reset_detected (
      reject_if (not (eqb_ℤ (sample Field.reset) (previous Field.reset))) reset_source (
        reject_if (leb_ℤ (sample Field.heartbeat) (previous Field.heartbeat)) heartbeat_stuck (
          reject_if (leb_ℤ (sample Field.tick) (previous Field.tick)) tick_stuck (
            reject_if (leb_ℤ (sample Field.evaluations) (previous Field.evaluations))
              evaluation_stuck none))))

-- The tests after the five counts.
unfoldable pub check_mcan : Sample → (minimum_stack : ℤ) → Verdict → Verdict
check_mcan sample minimum_stack rest =
    reject_if (not (is (sample Field.mcan_queue_drops) 0)) mcan_queue_drop (
      reject_if (not (is (sample Field.mcan_errors) 0)) mcan_error_interrupt (
        reject_if (not (is (sample Field.mcan_terminal_faults) 0)) mcan_fault_flag (
          reject_if
            (not (is (sample Field.mcan_tx_errors) 0)
              || not (is (sample Field.mcan_rx_errors) 0)
              || not (is (sample Field.mcan_error_log) 0))
            mcan_error_counters
            (reject_if
              (not (is (sample Field.mcan_mismatches) 0) || not (is (sample Field.mcan_timeouts) 0))
              mcan_frame_failure
              (reject_if (ltb_ℤ (sample Field.mcan_stack) minimum_stack) mcan_receiver_stack (
                reject_if
                  (not (is (sample Field.mcan_cleanup_status) 0)
                    || not (is (sample Field.mcan_cleanup) 1)
                    || low_bit (sample Field.mcan_cccr) == 0)
                  mcan_controller rest))))))

-- The tests before the five counts.
unfoldable pub check_health : Sample → (minimum_stack : ℤ) → Verdict → Verdict
check_health sample minimum_stack rest =
    reject_if (not (is (sample Field.boot) 0x424F4F54)) boot_magic (
      reject_if (not (is (sample Field.fault_magic) 0) || not (is (sample Field.fault_reason) 0))
        target_fault
        (reject_if (not (is (sample Field.drops) 0)) queue_drop (
          reject_if (ltb_ℤ (sample Field.stack) minimum_stack) health_stack (
            reject_if (not (is (sample Field.missing) 0) || not (is (sample Field.stall) 0))
              voter_state
              (reject_if (not (eqb_ℤ (sample Field.healthy) (sample Field.evaluations)))
                missing_voter
                (reject_if (not (is (sample Field.alloc_frozen) 1)) allocation_open (
                  reject_if (not (is (sample Field.post_freeze_allocations) 0))
                    allocation_after_freeze
                    (reject_if (not (is (sample Field.mcan_magic) 0x50415353)) mcan_incomplete (
                      reject_if (not (is (sample Field.mcan_priority) 4)) mcan_irq_priority
                        rest)))))))))

unfoldable pub validate_sample : Sample → Option Sample → (minimum_stack : ℤ) → Verdict
validate_sample sample previous minimum_stack = check_health sample minimum_stack (
    check_counts sample count_fields
      (check_mcan sample minimum_stack (check_previous sample previous)))
