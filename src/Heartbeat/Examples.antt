-- ===== src/Heartbeat/Examples.antt =====
-- A run of the collector with three samples: the theorems at it, and tests.
use hpm5321_can_analyzer.Common.{
  ℕ, ◌*◌, ◌+◌, ◌≡◌, ◌↔◌, refl, true, false, Option, none, some, List, [], ◌∷◌, ◌++◌, arith, inl,
  inr,
}
use hpm5321_can_analyzer.Common.Int.{ℤ, pos}
use hpm5321_can_analyzer.Heartbeat.Sample.{Field, Sample, parse_sample}
use hpm5321_can_analyzer.Heartbeat.Check.{
  reject_if, check_counts, check_previous, check_mcan, check_health, validate_sample,
  heartbeat_stuck,
}
use hpm5321_can_analyzer.Heartbeat.Required.{IsAccepted}
use hpm5321_can_analyzer.Heartbeat.Accepted.{validate_sample-IsAccepted}
use hpm5321_can_analyzer.Heartbeat.Collect.{
  Config, Round, sampled, Entry, Result, Setup, t_rtos_003, round_ms, completed, finish,
  collect_rounds, collect, sha256_accepted, pass, partial, fail, qualified,
}
use hpm5321_can_analyzer.Heartbeat.Chain.{IsOneBoot, collect-IsOneBoot}
use hpm5321_can_analyzer.Heartbeat.Outcomes.{AreGoodRounds, Passes, collect-Passes, IsGoodRound}
use hpm5321_can_analyzer.Common.Text.{codes}
use hpm5321_can_analyzer.Heartbeat.Printed.{print_sample}
use hpm5321_can_analyzer.Heartbeat.ReadBack.{parse-print_sample}

program : Unit {0}
unfolding reject_if check_counts check_previous check_mcan check_health validate_sample round_ms
    completed finish collect_rounds collect sha256_accepted
program = tt

-- A healthy target whose counters stand at `beat`.
abbrev sample : ℤ → Sample
sample beat Field.boot = pos 0x424F4F54
sample beat Field.boot_tick = pos 77
sample beat Field.reset = pos 5
sample beat Field.heartbeat = beat
sample beat Field.drops = pos 0
sample beat Field.stack = pos 200
sample beat Field.tick = beat
sample beat Field.fault_magic = pos 0
sample beat Field.fault_reason = pos 0
sample beat Field.evaluations = beat
sample beat Field.healthy = beat
sample beat Field.missing = pos 0
sample beat Field.stall = pos 0
sample beat Field.alloc_frozen = pos 1
sample beat Field.allocations = pos 9
sample beat Field.post_freeze_allocations = pos 0
sample beat Field.mcan_magic = pos 0x50415353
sample beat Field.mcan_priority = pos 4
sample beat Field.mcan_irqs = pos 1024
sample beat Field.mcan_submitted = pos 1024
sample beat Field.mcan_received = pos 1024
sample beat Field.mcan_matched = pos 1024
sample beat Field.mcan_queue_sends = pos 1024
sample beat Field.mcan_queue_drops = pos 0
sample beat Field.mcan_errors = pos 0
sample beat Field.mcan_terminal_faults = pos 0
sample beat Field.mcan_tx_errors = pos 0
sample beat Field.mcan_rx_errors = pos 0
sample beat Field.mcan_error_log = pos 0
sample beat Field.mcan_mismatches = pos 0
sample beat Field.mcan_timeouts = pos 0
sample beat Field.mcan_stack = pos 300
sample beat Field.mcan_cleanup_status = pos 0
sample beat Field.mcan_cccr = pos 1
sample beat Field.mcan_cleanup = pos 1

abbrev round : ℕ → Round
round n = record {
  outcome = sampled (sample (pos n));
  write_fails = false;
  final_write_fails = false;
  handler_write_fails = false;
  pause_interrupted = false;
  stamped = n * 1000000000;
  checked = n * 1000000000 + 1;
  left = n * 1000000000 + 2500000;
}

abbrev config : Config
config = record {
  test_id = t_rtos_003;
  duration = 2000000000;
  interval = 1000000000;
  minimum_stack = pos 128;
}

abbrev setup : Setup
setup = record {
  elf_is_file = true;
  elf_sha256 = [];
  expected_sha256 = none;
  server_runs = true;
  handler_write_fails = false;
}

abbrev rounds : List Round
rounds = round 1 ∷ round 2 ∷ round 3 ∷ []

abbrev entry : ℕ → Entry
entry n = record { sample = sample (pos n); elapsed = n * 1000 }

-- The run ends after two samples; half milliseconds are rounded to even.
abbrev passed : Result
passed = record {
  evidence = record {
    status = some pass;
    qualification = partial;
    samples = entry 1 ∷ entry 2 ∷ [];
    actual_duration = some 2002;
  };
  exit_status = some 0;
}

collect-run : collect setup config rounds ≡ some passed
unfolding program
collect-run = refl

-- The write after the loop fails: the failed run keeps the qualification.
abbrev late_round : Round
late_round = record (round 90000) { final_write_fails = true }

abbrev late : Result
late = record {
  evidence = record {
    status = some fail;
    qualification = qualified;
    samples = entry 1 ∷ record { sample = sample (pos 90000); elapsed = 90000000 } ∷ [];
    actual_duration = some 90000002;
  };
  exit_status = some 1;
}

collect-late : collect setup config (round 1 ∷ late_round ∷ []) ≡ some late
unfolding program
collect-late = refl

stuck : validate_sample (sample (pos 4)) (some (sample (pos 4))) (pos 128) ≡ some heartbeat_stuck
unfolding program
stuck = refl

accept-first : validate_sample (sample (pos 1)) none (pos 128) ≡ none
unfolding program
accept-first = refl

accept-second : validate_sample (sample (pos 2)) (some (sample (pos 1))) (pos 128) ≡ none
unfolding program
accept-second = refl

accept-third : validate_sample (sample (pos 3)) (some (sample (pos 2))) (pos 128) ≡ none
unfolding program
accept-third = refl

validate_sample-IsAccepted_example :
    (validate_sample (sample (pos 2)) (some (sample (pos 1))) (pos 128) ≡ none)
    ↔ IsAccepted (sample (pos 2)) (some (sample (pos 1))) (pos 128)
validate_sample-IsAccepted_example =
    validate_sample-IsAccepted (sample (pos 2)) (some (sample (pos 1))) (pos 128)

collect-IsOneBoot_example : IsOneBoot (pos 128) (entry 1) (entry 2 ∷ [])
collect-IsOneBoot_example =
    collect-IsOneBoot setup config rounds passed (entry 1) (entry 2 ∷ []) collect-run refl

good :
    (n : ℕ) (previous : Option Sample)
    → validate_sample (sample (pos n)) previous (pos 128) ≡ none
    → IsGoodRound config (round n) previous (sample (pos n))
good n previous h = record {
  sampled_s = refl;
  accepted = (validate_sample-IsAccepted (sample (pos n)) previous (pos 128)).0 h;
  written = refl;
  written_at_end = refl;
  undisturbed = refl;
}

rounds-AreGoodRounds : AreGoodRounds config none rounds
rounds-AreGoodRounds = (
  sample (pos 1),
  good 1 none accept-first,
  (
    sample (pos 2),
    good 2 (some (sample (pos 1))) accept-second,
    (sample (pos 3), good 3 (some (sample (pos 2))) accept-third, tt),
  ),
)

collect-Passes_example : Passes (collect setup config rounds)
unfolding sha256_accepted
collect-Passes_example =
    collect-Passes setup config rounds refl refl refl rounds-AreGoodRounds
      (inr (inl (omega arith, omega arith)))

parse-print_sample_example :
    parse_sample (print_sample (sample (pos 15)) ++ codes "detached") ≡ some (sample (pos 15))
parse-print_sample_example = parse-print_sample (sample (pos 15)) (codes "detached") (omega arith)
