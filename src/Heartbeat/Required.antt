-- ===== src/Heartbeat/Required.antt =====
-- What a sample that is accepted has passed (scripts/phase2/collect_heartbeat.py,
-- `validate_sample`).
use hpm5321_can_analyzer.Common.{ℕ, ◌≡◌, Bool, false, not, ◌||◌, Option, none, some, arith}
use hpm5321_can_analyzer.Common.Int.{ℤ, pos, ltb_ℤ, leb_ℤ, eqb_ℤ→eq, ◌≤ℤ◌, ◌<ℤ◌}
use hpm5321_can_analyzer.Heartbeat.Sample.{Field, Sample}
use hpm5321_can_analyzer.Heartbeat.Check.{
  low_bit, count_fields, check_counts, check_previous, check_mcan, check_health, validate_sample,
  reject_if, Rejection, is, Verdict,
}

-- The target runs, its voters and allocator are in order, and its stack is deep enough.
pub record IsHealthy (s : Sample) (minimum_stack : ℤ) : Type 0 where
  pub booted : s Field.boot ≡ pos 0x424F4F54
  pub no_fault : s Field.fault_magic ≡ pos 0
  pub no_reason : s Field.fault_reason ≡ pos 0
  pub no_drops : s Field.drops ≡ pos 0
  pub stack_left : minimum_stack ≤ℤ s Field.stack
  pub none_missing : s Field.missing ≡ pos 0
  pub none_stalled : s Field.stall ≡ pos 0
  pub all_healthy : s Field.healthy ≡ s Field.evaluations
  pub frozen : s Field.alloc_frozen ≡ pos 1
  pub none_allocated : s Field.post_freeze_allocations ≡ pos 0
  pub qualified : s Field.mcan_magic ≡ pos 0x50415353
  pub priority : s Field.mcan_priority ≡ pos 4

-- All 1024 frames went through the interrupt path with no error, and the controller was left in
-- its INIT state.
pub record IsQualified (s : Sample) (minimum_stack : ℤ) : Type 0 where
  pub irqs : s Field.mcan_irqs ≡ pos 1024
  pub submitted : s Field.mcan_submitted ≡ pos 1024
  pub received : s Field.mcan_received ≡ pos 1024
  pub matched : s Field.mcan_matched ≡ pos 1024
  pub queue_sends : s Field.mcan_queue_sends ≡ pos 1024
  pub no_queue_drops : s Field.mcan_queue_drops ≡ pos 0
  pub no_errors : s Field.mcan_errors ≡ pos 0
  pub no_faults : s Field.mcan_terminal_faults ≡ pos 0
  pub no_tx_errors : s Field.mcan_tx_errors ≡ pos 0
  pub no_rx_errors : s Field.mcan_rx_errors ≡ pos 0
  pub no_error_log : s Field.mcan_error_log ≡ pos 0
  pub no_mismatches : s Field.mcan_mismatches ≡ pos 0
  pub no_timeouts : s Field.mcan_timeouts ≡ pos 0
  pub stack_left : minimum_stack ≤ℤ s Field.mcan_stack
  pub cleaned_up : s Field.mcan_cleanup_status ≡ pos 0
  pub cleanup_done : s Field.mcan_cleanup ≡ pos 1
  pub in_init : low_bit (s Field.mcan_cccr) ≡ 1

-- The same boot, with the three counters further on.
pub record Advances (previous s : Sample) : Type 0 where
  pub same_boot : s Field.boot_tick ≡ previous Field.boot_tick
  pub same_reset : s Field.reset ≡ previous Field.reset
  pub heartbeat : previous Field.heartbeat <ℤ s Field.heartbeat
  pub tick : previous Field.tick <ℤ s Field.tick
  pub evaluations : previous Field.evaluations <ℤ s Field.evaluations

abbrev pub AdvancesFrom : Option Sample → Sample → Type 0
AdvancesFrom none s = Unit
AdvancesFrom (some previous) s = Advances previous s

-- A passed test, and what follows it.
pass_test :
    (test : Bool) (reason : Rejection) (rest : Verdict)
    → reject_if test reason rest ≡ none
    → (test ≡ false) × (rest ≡ none)
unfolding reject_if
pass_test test reason rest h = ground arith

is_exactly : (v : ℤ) (n : ℕ) → not (is v n) ≡ false → v ≡ pos n
is_exactly v n h = eqb_ℤ→eq v (pos n) (ground arith)

not-ltb_ℤ : (a b : ℤ) → ltb_ℤ a b ≡ false → b ≤ℤ a
not-ltb_ℤ a b h = ground arith

not-leb_ℤ : (a b : ℤ) → leb_ℤ a b ≡ false → b <ℤ a
not-leb_ℤ a b h = ground arith

either : (a b : Bool) → (a || b) ≡ false → (a ≡ false) × (b ≡ false)
either a b h = ground arith

check_previous-Advances :
    (previous : Option Sample) (s : Sample)
    → check_previous s previous ≡ none
    → AdvancesFrom previous s
unfolding check_previous
check_previous-Advances none s h = tt
check_previous-Advances (some p) s h =
    let (boot, h1) = pass_test _ _ _ h in
    let (reset, h2) = pass_test _ _ _ h1 in
    let (beat, h3) = pass_test _ _ _ h2 in
    let (tick, h4) = pass_test _ _ _ h3 in
    let (evaluation, h5) = pass_test _ _ _ h4 in
    record {
      same_boot = eqb_ℤ→eq (s Field.boot_tick) (p Field.boot_tick) (ground arith);
      same_reset = eqb_ℤ→eq (s Field.reset) (p Field.reset) (ground arith);
      heartbeat = not-leb_ℤ (s Field.heartbeat) (p Field.heartbeat) beat;
      tick = not-leb_ℤ (s Field.tick) (p Field.tick) tick;
      evaluations = not-leb_ℤ (s Field.evaluations) (p Field.evaluations) evaluation;
    }

check_health-IsHealthy :
    (s : Sample) (m : ℤ) (rest : Verdict)
    → check_health s m rest ≡ none
    → IsHealthy s m × (rest ≡ none)
unfolding check_health
check_health-IsHealthy s m rest h =
    let (boot, h1) = pass_test _ _ _ h in
    let (fault, h2) = pass_test _ _ _ h1 in
    let (drops, h3) = pass_test _ _ _ h2 in
    let (stack, h4) = pass_test _ _ _ h3 in
    let (voter, h5) = pass_test _ _ _ h4 in
    let (missing, h6) = pass_test _ _ _ h5 in
    let (frozen, h7) = pass_test _ _ _ h6 in
    let (allocated, h8) = pass_test _ _ _ h7 in
    let (magic, h9) = pass_test _ _ _ h8 in
    let (priority, h10) = pass_test _ _ _ h9 in
    let faults = either _ _ fault in
    let voters = either _ _ voter in
    (
      record {
        booted = is_exactly (s Field.boot) 0x424F4F54 boot;
        no_fault = is_exactly (s Field.fault_magic) 0 faults.0;
        no_reason = is_exactly (s Field.fault_reason) 0 faults.1;
        no_drops = is_exactly (s Field.drops) 0 drops;
        stack_left = not-ltb_ℤ (s Field.stack) m stack;
        none_missing = is_exactly (s Field.missing) 0 voters.0;
        none_stalled = is_exactly (s Field.stall) 0 voters.1;
        all_healthy = eqb_ℤ→eq (s Field.healthy) (s Field.evaluations) (ground arith);
        frozen = is_exactly (s Field.alloc_frozen) 1 frozen;
        none_allocated = is_exactly (s Field.post_freeze_allocations) 0 allocated;
        qualified = is_exactly (s Field.mcan_magic) 0x50415353 magic;
        priority = is_exactly (s Field.mcan_priority) 4 priority;
      },
      h10,
    )

-- Reading the five counts and the tests behind them.
check_mcan-IsQualified :
    (s : Sample) (m : ℤ) (rest : Verdict)
    → check_counts s count_fields (check_mcan s m rest) ≡ none
    → IsQualified s m × (rest ≡ none)
unfolding check_counts check_mcan
check_mcan-IsQualified s m rest h =
    let (irqs, g1) = pass_test _ _ _ h in
    let (submitted, g2) = pass_test _ _ _ g1 in
    let (received, g3) = pass_test _ _ _ g2 in
    let (matched, g4) = pass_test _ _ _ g3 in
    let (sends, g5) = pass_test _ _ _ g4 in
    let (queue, h1) = pass_test _ _ _ g5 in
    let (errors, h2) = pass_test _ _ _ h1 in
    let (terminal, h3) = pass_test _ _ _ h2 in
    let (counters, h4) = pass_test _ _ _ h3 in
    let (frames, h5) = pass_test _ _ _ h4 in
    let (stack, h6) = pass_test _ _ _ h5 in
    let (controller, h7) = pass_test _ _ _ h6 in
    let (counters12, log) = either _ _ counters in
    let (tx, rx) = either _ _ counters12 in
    let (mismatch, timeout) = either _ _ frames in
    let (cleanup, init) = either _ _ controller in
    let (status, done) = either _ _ cleanup in
    (
      record {
        irqs = is_exactly (s Field.mcan_irqs) 1024 irqs;
        submitted = is_exactly (s Field.mcan_submitted) 1024 submitted;
        received = is_exactly (s Field.mcan_received) 1024 received;
        matched = is_exactly (s Field.mcan_matched) 1024 matched;
        queue_sends = is_exactly (s Field.mcan_queue_sends) 1024 sends;
        no_queue_drops = is_exactly (s Field.mcan_queue_drops) 0 queue;
        no_errors = is_exactly (s Field.mcan_errors) 0 errors;
        no_faults = is_exactly (s Field.mcan_terminal_faults) 0 terminal;
        no_tx_errors = is_exactly (s Field.mcan_tx_errors) 0 tx;
        no_rx_errors = is_exactly (s Field.mcan_rx_errors) 0 rx;
        no_error_log = is_exactly (s Field.mcan_error_log) 0 log;
        no_mismatches = is_exactly (s Field.mcan_mismatches) 0 mismatch;
        no_timeouts = is_exactly (s Field.mcan_timeouts) 0 timeout;
        stack_left = not-ltb_ℤ (s Field.mcan_stack) m stack;
        cleaned_up = is_exactly (s Field.mcan_cleanup_status) 0 status;
        cleanup_done = is_exactly (s Field.mcan_cleanup) 1 done;
        in_init = ground arith;
      },
      h7,
    )

-- What an accepted sample satisfies.
pub record IsAccepted (s : Sample) (previous : Option Sample) (minimum_stack : ℤ) : Type 0 where
  pub health : IsHealthy s minimum_stack
  pub qualification : IsQualified s minimum_stack
  pub progress : AdvancesFrom previous s

pub IsAccepted-sound :
    (s : Sample) (previous : Option Sample) (m : ℤ)
    → validate_sample s previous m ≡ none
    → IsAccepted s previous m
unfolding validate_sample
IsAccepted-sound s previous m h =
    let (health, h1) = check_health-IsHealthy s m _ h in
    let (qualification, h2) = check_mcan-IsQualified s m _ h1 in
    record {
      health = health;
      qualification = qualification;
      progress = check_previous-Advances previous s h2;
    }

pub le-not_ltb_ℤ : (a b : ℤ) → b ≤ℤ a → ltb_ℤ a b ≡ false
le-not_ltb_ℤ a b h = ground arith

pub lt-not_leb_ℤ : (a b : ℤ) → b <ℤ a → leb_ℤ a b ≡ false
lt-not_leb_ℤ a b h = ground arith
