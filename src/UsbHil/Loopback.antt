-- ===== src/UsbHil/Loopback.antt =====
-- The long echo (scripts/phase3/run_usb_hil.py, `minimums_met` and `run_loopback`). The evidence is
-- kept without texts, wall-clock times, the digest and the throughputs, but with the division by
-- the elapsed time that a throughput takes.
use hpm5321_can_analyzer.Common.{
  ℕ, zero, suc, ◌+◌, ◌-◌, Bool, true, false, not, ◌||◌, ◌&&◌, Option, none, some, List, [], ◌∷◌,
  ◌++◌, length, ltb, leb, ◌==◌, if◌then◌else◌,
}
use hpm5321_can_analyzer.UsbHil.Session.{
  Environment, UsbState, UsbError, os_error, is_caught, zero_division, chunk_size, bad_metadata,
  Outcome, returned, raised, cut_off, M, return, call, require, ◌>>=◌, ◌>>◌, with_session, echo,
  device_out_window,
}
use hpm5321_can_analyzer.UsbHil.RunMatrix.{
  Inputs, run_metadata, RunStatus, running, pass, fail, Verdict, pending, passed, not_qualified,
  is_runtime_error, Ended,
}

pub record Progress : Type 0 where
  pub verified_bytes : ℕ
  pub verified_transfers : ℕ
  pub elapsed : ℕ

pub record LoopEvidence : Type 0 where
  pub status : RunStatus
  pub verdict : Verdict
  pub verified_bytes : ℕ
  pub verified_transfers : ℕ
  pub content_errors : ℕ
  pub progress : List Progress
  pub elapsed : Option ℕ
  pub byte_threshold_met : Option Bool
  pub duration_threshold_met : Option Bool
  pub failure : Option UsbError

abbrev pub loop_started : LoopEvidence
loop_started = record {
  status = running;
  verdict = pending;
  verified_bytes = 0;
  verified_transfers = 0;
  content_errors = 0;
  progress = [];
  elapsed = none;
  byte_threshold_met = none;
  duration_threshold_met = none;
  failure = none;
}

pub record LoopArgs : Type 0 where
  pub chunk : ℕ
  pub min_bytes : ℕ
  pub min_time : ℕ
  pub report_time : ℕ

unfoldable pub minimums_met : (total_bytes elapsed min_bytes min_time : ℕ) → Bool
minimums_met total_bytes elapsed min_bytes min_time =
    leb min_bytes total_bytes && leb min_time elapsed

-- The variables of the loop.
pub record Totals : Type 0 where
  pub total_bytes : ℕ
  pub transfers : ℕ
  pub next_report : ℕ

abbrev pub counted : ℕ → Totals → Totals
counted n t = record t { total_bytes = t.total_bytes + n; transfers = t.transfers + 1 }

abbrev pub with_progress : (elapsed : ℕ) → Totals → LoopEvidence → LoopEvidence
with_progress elapsed t e = record e {
  progress =
      e.progress
      ++ record {
        verified_bytes = t.total_bytes;
        verified_transfers = t.transfers;
        elapsed = elapsed;
      }
        ∷ [];
  verified_bytes = t.total_bytes;
  verified_transfers = t.transfers;
  elapsed = some elapsed;
}

module _ {World : Type 0} (env : Environment World) (args : LoopArgs) where
  -- `except RuntimeError: evidence["content_errors"] += 1; raise`
  abbrev pub counted_error : UsbError → LoopEvidence → LoopEvidence
  counted_error error e =
      if is_runtime_error error then record e { content_errors = e.content_errors + 1 } else e

  -- The report after an echo: how it ends, with the totals.
  unfoldable pub report :
      (started : ℕ) → Totals → LoopEvidence → M World (Ended (LoopEvidence × Totals))
  report started t e s =
      let clock = env.monotonic s.world in
      let s' = record s { world = clock.1 } in
      let elapsed = clock.0 - started in
      if not (leb t.next_report clock.0)
      then (returned (returned tt, (e, t)), s')
      else if elapsed == 0
      then (returned (raised zero_division, (e, t)), s')
      else (let e' = with_progress elapsed t e in
          let written = env.write_evidence clock.1 in
          let t' : Totals = record t { next_report = clock.0 + args.report_time } in
          (
            returned (if written.0 then returned tt else raised os_error, (e', t')),
            record s { world = written.1 },
          ))

  -- The rest of a turn after the echo of `n` bytes; `next` is the next turn.
  unfoldable pub after_report :
      Outcome (Ended (LoopEvidence × Totals)) × UsbState World
      → (Totals → LoopEvidence → M World (Ended (LoopEvidence × Totals)))
      → Outcome (Ended (LoopEvidence × Totals)) × UsbState World
  after_report (cut_off, s) next = (cut_off, s)
  after_report (raised error, s) next = (raised error, s)
  after_report (returned (cut_off, et), s) next = (returned (cut_off, et), s)
  after_report (returned (raised error, et), s) next = (returned (raised error, et), s)
  after_report (returned (returned done, et), s) next = next et.1 et.0 s

  unfoldable pub after_echo :
      (started n : ℕ)
      → Outcome (Unit {0}) × UsbState World
      → Totals
      → LoopEvidence
      → (Totals → LoopEvidence → M World (Ended (LoopEvidence × Totals)))
      → Outcome (Ended (LoopEvidence × Totals)) × UsbState World
  unfolding report after_report
  after_echo started n (cut_off, s) t e next = (returned (cut_off, (e, t)), s)
  after_echo started n (raised error, s) t e next =
      (returned (raised error, (counted_error error e, t)), s)
  after_echo started n (returned done, s) t e next =
      after_report (report started (counted n t) e s) next

  -- `while True`, for at most `turns` turns.
  unfoldable pub loop :
      (turns started : ℕ) → Totals → LoopEvidence → M World (Ended (LoopEvidence × Totals))
  unfolding after_echo echo minimums_met
  loop zero started t e s = (returned (cut_off, (e, t)), s)
  loop (suc n) started t e s =
      let clock = env.monotonic s.world in
      let payload = env.randbytes args.chunk clock.1 in
      elim (minimums_met t.total_bytes (clock.0 - started) args.min_bytes args.min_time) [
        | true ↦ (returned (returned tt, (e, t)), record s { world = clock.1 })
        | false ↦
            after_echo started (length payload.0)
              (echo env payload.0 (record s { world = payload.1 })) t e
              (λ t' e'. loop n started t' e')
      ]

  unfoldable pub fail_loop : UsbError → LoopEvidence → M World (ℕ × LoopEvidence)
  fail_loop error e s =
      let written = env.write_evidence s.world in
      let s' = record s { world = written.1 } in
      if not (is_caught error)
      then (raised error, s)
      else if written.0
      then (
        returned (1, record e { status = fail; verdict = not_qualified; failure = some error }),
        s',
      )
      else (raised os_error, s')

  unfoldable pub pass_loop : (started : ℕ) → Totals → LoopEvidence → M World (ℕ × LoopEvidence)
  unfolding fail_loop
  pass_loop started t e = do
    now ← call env.monotonic
    require (not (now - started == 0)) zero_division
    let e' : LoopEvidence = record e {
      status = pass;
      verdict = passed;
      verified_bytes = t.total_bytes;
      verified_transfers = t.transfers;
      elapsed = some (now - started);
      byte_threshold_met = some (leb args.min_bytes t.total_bytes);
      duration_threshold_met = some (leb args.min_time (now - started));
    }
    written ← call env.write_evidence
    if written then return (0, e') else fail_loop os_error e'

  unfoldable pub end_loop :
      (started : ℕ) → Ended (LoopEvidence × Totals) → M World (ℕ × LoopEvidence)
  unfolding pass_loop fail_loop
  end_loop started (returned done, et) s = pass_loop started et.1 et.0 s
  end_loop started (raised error, et) s = fail_loop error et.0 s
  end_loop started (cut_off, et) s = (cut_off, s)

  unfoldable pub after_loop :
      (started : ℕ)
      → LoopEvidence
      → Outcome (Ended (LoopEvidence × Totals)) × UsbState World
      → Outcome (ℕ × LoopEvidence) × UsbState World
  unfolding end_loop fail_loop
  after_loop started e (returned ended, s) = end_loop started ended s
  after_loop started e (raised error, s) = fail_loop error e s
  after_loop started e (cut_off, s) = (cut_off, s)

  -- The echo of at most `turns` chunks.
  unfoldable pub run_loopback :
      (turns rounds recovery_timeout : ℕ) → Inputs → M World (ℕ × LoopEvidence)
  unfolding run_metadata loop after_loop fail_loop with_session
  run_loopback turns rounds timeout inputs =
      if args.chunk == 0 || ltb device_out_window args.chunk
      then fail_loop chunk_size loop_started
      else elim (run_metadata inputs) [
        | none ↦ fail_loop bad_metadata loop_started
        | some metadata ↦ do
          written ← call env.write_evidence
          if written
              then (do
                started ← call env.monotonic
                let first : Totals = record {
                  total_bytes = 0;
                  transfers = 0;
                  next_report = started + args.report_time;
                }
                λ s.
                    after_loop started loop_started
                      (with_session env rounds timeout (loop turns started first loop_started) s))
              else fail_loop os_error loop_started
      ]
