-- ===== src/Hotplug/Smoke.antt =====
-- The recovery smoke (scripts/phase3/collect_usb_hotplug.py, `_run_smoke` and
-- `_run_smoke_with_retry`). The smoke program is a list of attempts; times are whole nanoseconds.
use hpm5321_can_analyzer.Common.{
  ℕ, ◌+◌, ◌-◌, ◌/◌, ◌%◌, ◌||◌, Option, none, some, List, [], ◌∷◌, ◌++◌, length, ltb, leb,
  if◌then◌else◌,
}
use hpm5321_can_analyzer.Common.Int.{ℤ, pos, eqb_ℤ}

-- A run of the smoke program: its exit status, `none` if it cannot be started (an OSError), and the
-- clock when it has ended.
pub record Attempt : Type 0 where
  pub exit_code : Option ℤ
  pub ended : ℕ

-- The evidence of the runs, with `recovery_ms` in microseconds; the output is left out.
pub record Smoke : Type 0 where
  pub exit_code : ℤ
  pub attempt_count : ℕ
  pub attempts : List ℤ
  pub recovery_us : ℕ

-- What the call does: it returns, raises an OSError, or still runs when the attempts are over.
pub data Retry : Type 0 where
  returned : Smoke → Retry
  not_started still_running : Retry

-- `round(milliseconds, 3)` as microseconds, half to even.
unfoldable pub round_us : ℕ → ℕ
round_us t =
    let q = t / 1000 in
    let r = t % 1000 in if ltb r 500 then q else if ltb 500 r then q + 1 else q + q % 2

-- `attempts` are the exit statuses so far.
unfoldable pub run_smoke_with_retry :
    (started timeout : ℕ) → List Attempt → (attempts : List ℤ) → Retry
unfolding round_us
run_smoke_with_retry started timeout [] attempts = still_running
run_smoke_with_retry started timeout (attempt ∷ later) attempts = elim attempt.exit_code [
  | none ↦ not_started
  | some code ↦
      let attempts' = attempts ++ code ∷ [] in
      let rest = run_smoke_with_retry started timeout later attempts' in
      if eqb_ℤ code (pos 0) || leb (started + timeout) attempt.ended
      then returned (record {
        exit_code = code;
        attempt_count = length attempts';
        attempts = attempts';
        recovery_us = round_us (attempt.ended - started);
      })
      else rest
]
