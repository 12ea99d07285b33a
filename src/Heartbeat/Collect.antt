-- ===== src/Heartbeat/Collect.antt =====
-- The collecting loop and its evidence (scripts/phase2/collect_heartbeat.py, `collect`). The target,
-- the clock and the operator are a list of rounds; times are whole nanoseconds since the start.
use hpm5321_can_analyzer.Common.{
  ℕ, ◌+◌, ◌-◌, ◌*◌, ◌/◌, ◌%◌, min, Bool, true, false, not, ◌&&◌, ◌||◌, Option, none, some, List, [],
  ◌∷◌, ◌++◌, map, all, length, ltb, leb, ◌==◌, if◌then◌else◌,
}
use hpm5321_can_analyzer.Common.Int.{ℤ}
use hpm5321_can_analyzer.Common.Text.{lower, text_eq}
use hpm5321_can_analyzer.Heartbeat.Sample.{Sample, is_hex_digit}
use hpm5321_can_analyzer.Heartbeat.Check.{validate_sample}

pub data TestId : Type 0 where
  t_rtos_003 t_rtos_005 : TestId

pub data Status : Type 0 where
  pass fail aborted : Status

pub data Qualification : Type 0 where
  partial qualified : Qualification

-- The arguments that the loop reads.
pub record Config : Type 0 where
  pub test_id : TestId
  pub duration : ℕ
  pub interval : ℕ
  pub minimum_stack : ℤ

-- What the sampler does in a round: it returns a sample, raises an error that `collect` catches,
-- or is interrupted by the operator.
pub data Outcome : Type 0 where
  sampled : Sample → Outcome
  failed interrupted : Outcome

-- A round: the sampler's outcome, whether the write of the evidence file fails after the sample,
-- after the loop and in a handler, whether the operator interrupts the pause, and the clock when
-- the sample is stamped, when the loop's end is tested, and when the loop is left.
pub record Round : Type 0 where
  pub outcome : Outcome
  pub write_fails : Bool
  pub final_write_fails : Bool
  pub handler_write_fails : Bool
  pub pause_interrupted : Bool
  pub stamped : ℕ
  pub checked : ℕ
  pub left : ℕ

-- A recorded sample with its `elapsed_seconds`, in milliseconds.
pub record Entry : Type 0 where
  pub sample : Sample
  pub elapsed : ℕ

-- The fields of the evidence that the loop changes; `actual_duration` is in milliseconds.
pub record Evidence : Type 0 where
  pub status : Option Status
  pub qualification : Qualification
  pub samples : List Entry
  pub actual_duration : Option ℕ

-- `RUNNING`, `PARTIAL`, and no sample yet.
abbrev pub fresh : Evidence
fresh = record { status = none; qualification = partial; samples = []; actual_duration = none }

-- The evidence and the exit status; `none` is the OSError of a handler's own write, which leaves
-- `collect`.
pub record Result : Type 0 where
  pub evidence : Evidence
  pub exit_status : Option ℕ

-- `round(seconds, 3)`, half to even.
unfoldable pub round_ms : ℕ → ℕ
round_ms t =
    let q = t / 1000000 in
    let r = t % 1000000 in if ltb r 500000 then q else if ltb 500000 r then q + 1 else q + q % 2

-- `max(0.0, min(interval, remaining))`, where what remains is `duration - elapsed`.
unfoldable pub bounded_sleep : (interval duration elapsed : ℕ) → ℕ
bounded_sleep interval duration elapsed =
    if leb duration elapsed then 0 else min interval (duration - elapsed)

-- QUALIFICATION_SECONDS, in milliseconds.
abbrev pub qualification_ms : ℕ
qualification_ms = 24 * 60 * 60 * 1000

abbrev pub is_rtos_005 : TestId → Bool
is_rtos_005 t_rtos_005 = true
is_rtos_005 t_rtos_003 = false

-- The status that a handler returns after its write.
abbrev pub after_write : (write_fails : Bool) → ℕ → Option ℕ
after_write write_fails k = if write_fails then none else some k

-- `except (OSError, RuntimeError, subprocess.SubprocessError)`
abbrev pub give_up : (write_fails : Bool) → Evidence → Result
give_up write_fails e = record {
  evidence = record e { status = some fail };
  exit_status = after_write write_fails 1;
}

-- `except KeyboardInterrupt`, once the clock has been started.
unfoldable pub abort : Round → Evidence → Result
unfolding round_ms
abort round e = record {
  evidence = record e { status = some aborted; actual_duration = some (round_ms round.left) };
  exit_status = after_write round.handler_write_fails 130;
}

-- The evidence after the loop.
unfoldable pub completed : Config → Round → Evidence → Evidence
unfolding round_ms
completed config round e =
    let ms = round_ms round.left in
    record e {
      status = some pass;
      actual_duration = some ms;
      qualification =
          if is_rtos_005 config.test_id || leb qualification_ms ms
          then qualified
          else e.qualification;
    }

-- The statements after the loop; the last write can fail.
unfoldable pub finish : Config → Round → Evidence → Result
unfolding completed
finish config round e =
    if round.final_write_fails
    then give_up round.handler_write_fails (completed config round e)
    else record { evidence = completed config round e; exit_status = some 0 }

abbrev pub add_entry : Sample → ℕ → Evidence → Evidence
add_entry s now e = record e {
  samples = e.samples ++ record { sample = s; elapsed = round_ms now } ∷ [];
}

-- `elapsed >= duration and len(samples) >= 2`
abbrev pub is_done : Config → Round → Evidence → Bool
is_done config round e = leb config.duration round.checked && leb 2 (length e.samples)

-- The loop; `none` means that the rounds are over and it still runs.
unfoldable pub collect_rounds : Config → List Round → Option Sample → Evidence → Option Result
collect_rounds config [] previous e = none
collect_rounds config (round ∷ rounds) previous e = elim round.outcome [
  | interrupted ↦ some (abort round e)
  | failed ↦ some (give_up round.handler_write_fails e)
  | sampled s ↦ elim (validate_sample s previous config.minimum_stack) [
    | some reason ↦ some (give_up round.handler_write_fails e)
    | none ↦
        let e' = add_entry s round.stamped e in
        let more = collect_rounds config rounds (some s) e' in
        if round.write_fails
        then some (give_up round.handler_write_fails e')
        else if is_done config round e'
        then some (finish config round e')
        else if round.pause_interrupted
        then some (abort round e')
        else more
  ]
]

-- Whether `validate_expected_sha256` returns.
unfoldable pub sha256_accepted : List ℕ → Option (List ℕ) → Bool
sha256_accepted actual none = true
sha256_accepted actual (some expected) =
    length expected == 64 && all is_hex_digit expected && text_eq actual (map lower expected)

-- What is found before the loop: the ELF and its digest, the digest asked for, and whether the GDB
-- server still runs after its start; and whether the handler's write fails.
pub record Setup : Type 0 where
  pub elf_is_file : Bool
  pub elf_sha256 : List ℕ
  pub expected_sha256 : Option (List ℕ)
  pub server_runs : Bool
  pub handler_write_fails : Bool

unfoldable pub collect : Setup → Config → List Round → Option Result
collect setup config rounds =
    if not setup.elf_is_file
    then some (give_up setup.handler_write_fails fresh)
    else if not (sha256_accepted setup.elf_sha256 setup.expected_sha256)
    then some (give_up setup.handler_write_fails fresh)
    else if not setup.server_runs
    then some (give_up setup.handler_write_fails fresh)
    else collect_rounds config rounds none fresh
