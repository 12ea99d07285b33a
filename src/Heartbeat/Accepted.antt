-- ===== src/Heartbeat/Accepted.antt =====
-- Acceptance of a sample in both directions
-- (scripts/phase2/collect_heartbeat.py, `validate_sample`).
use hpm5321_can_analyzer.Common.{◌∙◌, ◌≡◌, ◌↔◌, refl, Option, none, some}
use hpm5321_can_analyzer.Common.Int.{ℤ, eqb_ℤ_refl}
use hpm5321_can_analyzer.Heartbeat.Sample.{Field, Sample}
use hpm5321_can_analyzer.Heartbeat.Check.{
  count_fields, check_counts, check_previous, check_mcan, check_health, validate_sample, reject_if,
  Verdict,
}
use hpm5321_can_analyzer.Heartbeat.Required.{
  IsHealthy, IsQualified, AdvancesFrom, IsAccepted, IsAccepted-sound, le-not_ltb_ℤ, lt-not_leb_ℤ,
}

check_health-IsHealthy_complete :
    (s : Sample) (m : ℤ) (rest : Verdict) → IsHealthy s m → check_health s m rest ≡ rest
unfolding check_health reject_if
check_health-IsHealthy_complete s m rest h =
    rw
      (
        h.booted,
        h.no_fault,
        h.no_reason,
        h.no_drops,
        le-not_ltb_ℤ (s Field.stack) m h.stack_left,
        h.none_missing,
        h.none_stalled,
        h.all_healthy,
        eqb_ℤ_refl (s Field.evaluations),
        h.frozen,
        h.none_allocated,
        h.qualified,
        h.priority,
      )
      refl

check_counts-IsQualified :
    (s : Sample) (m : ℤ) (rest : Verdict)
    → IsQualified s m
    → check_counts s count_fields (check_mcan s m rest) ≡ rest
unfolding check_counts check_mcan reject_if
check_counts-IsQualified s m rest h =
    rw
      (
        h.irqs,
        h.submitted,
        h.received,
        h.matched,
        h.queue_sends,
        h.no_queue_drops,
        h.no_errors,
        h.no_faults,
        h.no_tx_errors,
        h.no_rx_errors,
        h.no_error_log,
        h.no_mismatches,
        h.no_timeouts,
        le-not_ltb_ℤ (s Field.mcan_stack) m h.stack_left,
        h.cleaned_up,
        h.cleanup_done,
        h.in_init,
      )
      refl

check_previous-Advances_complete :
    (s : Sample) (previous : Option Sample)
    → AdvancesFrom previous s
    → check_previous s previous ≡ none
unfolding check_previous reject_if
check_previous-Advances_complete s none h = refl
check_previous-Advances_complete s (some p) h =
    rw
      (
        h.same_boot,
        eqb_ℤ_refl (p Field.boot_tick),
        h.same_reset,
        eqb_ℤ_refl (p Field.reset),
        lt-not_leb_ℤ (s Field.heartbeat) (p Field.heartbeat) h.heartbeat,
        lt-not_leb_ℤ (s Field.tick) (p Field.tick) h.tick,
        lt-not_leb_ℤ (s Field.evaluations) (p Field.evaluations) h.evaluations,
      )
      refl

IsAccepted-complete :
    (s : Sample) (previous : Option Sample) (m : ℤ)
    → IsAccepted s previous m
    → validate_sample s previous m ≡ none
unfolding validate_sample
IsAccepted-complete s previous m h =
    check_health-IsHealthy_complete s m _ h.health
    ∙ check_counts-IsQualified s m _ h.qualification
    ∙ check_previous-Advances_complete s previous h.progress

-- A sample is accepted exactly if the target is healthy, the MCAN0 test is complete and clean, and
-- the sample continues the boot of the sample before with every counter further on.
pub validate_sample-IsAccepted :
    (s : Sample) (previous : Option Sample) (m : ℤ)
    → (validate_sample s previous m ≡ none) ↔ IsAccepted s previous m
validate_sample-IsAccepted s previous m =
    (IsAccepted-sound s previous m, IsAccepted-complete s previous m)
