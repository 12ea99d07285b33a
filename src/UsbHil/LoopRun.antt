-- ===== src/UsbHil/LoopRun.antt =====
-- A long echo that exits with 0 (scripts/phase3/run_usb_hil.py, `run_loopback`).
use hpm5321_can_analyzer.Common.{
  ℕ, ◌+◌, ◌-◌, ◌≤◌, ◌≡◌, ◌∙◌, refl, sym, ap, inl, inr, true, false, ◌||◌, none, some, List, length,
  ltb, leb, ◌==◌, arith, Bool-cases, Option-cases,
}
use hpm5321_can_analyzer.UsbHil.Session.{
  Environment, UsbState, UsbError, os_error, chunk_size, Outcome, returned, raised, cut_off,
  open_with_retry, with_session, device_out_window,
}
use hpm5321_can_analyzer.UsbHil.Returns.{returned-injective}
use hpm5321_can_analyzer.UsbHil.Sessions.{with_session_returns}
use hpm5321_can_analyzer.UsbHil.RunMatrix.{Inputs, Metadata, run_metadata, pass, passed, Ended}
use hpm5321_can_analyzer.UsbHil.Loopback.{
  LoopEvidence, loop_started, LoopArgs, Totals, loop, fail_loop, pass_loop, end_loop, after_loop,
  run_loopback,
}
use hpm5321_can_analyzer.UsbHil.LoopTurns.{total_length, LoopTrace, loop-HasLooped}

module _ {World : Type 0} (env : Environment World) (args : LoopArgs) where
  fail_loop_exit :
      (error : UsbError) (e out : LoopEvidence) (k : ℕ) (s s' : UsbState World)
      → fail_loop env args error e s ≡ (returned (k, out), s')
      → k ≡ 1
  unfolding fail_loop
  fail_loop_exit error e out k s s' h = ground arith

  -- The evidence of a pass.
  abbrev passed_loop : (elapsed : ℕ) → Totals → LoopEvidence → LoopEvidence
  passed_loop elapsed t e = record e {
    status = pass;
    verdict = passed;
    verified_bytes = t.total_bytes;
    verified_transfers = t.transfers;
    elapsed = some elapsed;
    byte_threshold_met = some (leb args.min_bytes t.total_bytes);
    duration_threshold_met = some (leb args.min_time elapsed);
  }

  pass_loop_zero :
      (started : ℕ) (t : Totals) (e out : LoopEvidence) (s s' : UsbState World)
      → pass_loop env args started t e s ≡ (returned (0, out), s')
      → (elapsed : ℕ) × (¬ (elapsed ≡ 0)) × (out ≡ passed_loop elapsed t e)
  unfolding pass_loop
  pass_loop_zero started t e out s s' h =
      let clock = env.monotonic s.world in
      let elapsed = clock.0 - started in
      elim (Bool-cases (elapsed == 0)) [
        | inl instant ↦ let h' = rw (instant, pass_loop) at h in cc
        | inr later ↦ elim (Bool-cases (env.write_evidence clock.1).0) [
          | inl written ↦ (
            elapsed,
            ground arith,
            ap (λ x. x.1)
                (sym (returned-injective (ap (λ p. p.0) (rw (later, written, pass_loop) at h)))),
          )
          | inr lost ↦
              let one =
                fail_loop_exit os_error (passed_loop elapsed t e) out 0 _ s'
                  (rw (later, lost, pass_loop) at h) in
              absurd (omega (arith, one))
        ]
      ]

  -- The session's body ended without an error, and the evidence is that of its totals.
  record IsLoopEnd (started : ℕ) (r : Outcome (Ended (LoopEvidence × Totals)) × UsbState World)
      (out : LoopEvidence) : Type 0 where
    ended : LoopEvidence × Totals
    state : UsbState World
    returns : r ≡ (returned (returned tt, ended), state)
    elapsed : ℕ
    later : ¬ (elapsed ≡ 0)
    out_is : out ≡ passed_loop elapsed ended.1 ended.0

  after_loop-IsLoopEnd :
      (started : ℕ) (e out : LoopEvidence)
      (r : Outcome (Ended (LoopEvidence × Totals)) × UsbState World) (s' : UsbState World)
      → after_loop env args started e r ≡ (returned (0, out), s')
      → IsLoopEnd started r out
  unfolding after_loop end_loop
  after_loop-IsLoopEnd started e out (raised error, s) s' h =
      let one = fail_loop_exit error e out 0 s s' h in absurd (omega (arith, one))
  after_loop-IsLoopEnd started e out (cut_off, s) s' h = cc
  after_loop-IsLoopEnd started e out (returned (returned done, x), s) s' h =
      let p = pass_loop_zero started x.1 x.0 out s s' h in
      record { ended = x; state = s; returns = refl; elapsed = p.0; later = p.1; out_is = p.2 }
  after_loop-IsLoopEnd started e out (returned (raised error, x), s) s' h =
      let one = fail_loop_exit error x.0 out 0 s s' h in absurd (omega (arith, one))
  after_loop-IsLoopEnd started e out (returned (cut_off, x), s) s' h = cc

  -- The reading of the clock before the session, after the first write of the evidence.
  abbrev pub begun : UsbState World → ℕ × World
  begun s = env.monotonic (env.write_evidence s.world).1

  -- What a run from the state `s` with exit status 0 shows.
  pub record IsLoopRun (rounds timeout : ℕ) (inputs : Inputs) (s : UsbState World)
      (out : LoopEvidence) : Type 0 where
    pub chunk_fits : (1 ≤ args.chunk) × (args.chunk ≤ device_out_window)
    pub metadata : Metadata
    pub metadata_read : run_metadata inputs ≡ some metadata
    pub status : out.status ≡ pass
    pub verdict : out.verdict ≡ passed
    pub opened : UsbState World
    pub opens :
        open_with_retry env rounds timeout
          (record { world = (env.init (begun s).1).1; handle = none })
        ≡ (returned tt, opened)
    pub stop : UsbState World
    pub payloads : List (List ℕ)
    pub trace : LoopTrace env args opened stop payloads
    pub bytes : out.verified_bytes ≡ total_length payloads
    pub transfers : out.verified_transfers ≡ length payloads
    pub enough : args.min_bytes ≤ out.verified_bytes
    pub enough_time : args.min_time ≤ (env.monotonic stop.world).0 - (begun s).0
    pub byte_threshold : out.byte_threshold_met ≡ some true
    pub no_errors : out.content_errors ≡ 0
    pub no_failure : out.failure ≡ none
    pub elapsed : ℕ
    pub elapsed_is : out.elapsed ≡ some elapsed
    pub later : ¬ (elapsed ≡ 0)
    pub duration_threshold : out.duration_threshold_met ≡ some (leb args.min_time elapsed)

  from_zero : (a n : ℕ) → a ≡ 0 + n → a ≡ n
  from_zero a n h = omega (arith, h)

  leb-true : (a b : ℕ) → a ≤ b → leb a b ≡ true
  leb-true a b h = ground arith

  session_IsLoopRun :
      (turns rounds timeout : ℕ) (inputs : Inputs) (metadata : Metadata) (out : LoopEvidence)
      (s s' : UsbState World)
      → (1 ≤ args.chunk) × (args.chunk ≤ device_out_window)
      → run_metadata inputs ≡ some metadata
      → after_loop env args (begun s).0 loop_started (
          with_session env rounds timeout
            (loop env args turns
              (begun s).0
              (record {
                total_bytes = 0;
                transfers = 0;
                next_report = (begun s).0 + args.report_time;
              })
              loop_started)
            (record s { world = (begun s).1 }))
        ≡ (returned (0, out), s')
      → IsLoopRun rounds timeout inputs s out
  session_IsLoopRun turns rounds timeout inputs metadata out s s' fits m h =
      let started = (begun s).0 in
      let s1 = record s { world = (begun s).1 } in
      let first : Totals = record {
        total_bytes = 0;
        transfers = 0;
        next_report = started + args.report_time;
      } in
      let body = loop env args turns started first loop_started in
      let a =
        after_loop-IsLoopEnd started loop_started out (with_session env rounds timeout body s1) s'
          h in
      let in_session =
        with_session_returns env rounds timeout body (returned tt, a.ended) s1 a.state a.returns in
      let b =
        loop-HasLooped env args turns started first loop_started a.ended in_session.before
          in_session.after in_session.ran in
      let o = a.out_is in
      record {
        chunk_fits = fits;
        metadata = metadata;
        metadata_read = m;
        status = ap (λ e. e.status) o;
        verdict = ap (λ e. e.verdict) o;
        opened = in_session.before;
        opens = in_session.opened;
        stop = b.stop;
        payloads = b.payloads;
        trace = b.trace;
        bytes =
            from_zero out.verified_bytes (total_length b.payloads)
              (ap (λ e. e.verified_bytes) o ∙ b.bytes);
        transfers =
            from_zero out.verified_transfers (length b.payloads)
              (ap (λ e. e.verified_transfers) o ∙ b.transfers);
        enough = omega (arith, b.enough, ap (λ e. e.verified_bytes) o);
        enough_time = b.enough_time;
        byte_threshold =
            ap (λ e. e.byte_threshold_met) o
            ∙ ap some (leb-true args.min_bytes a.ended.1.total_bytes b.enough);
        no_errors = ap (λ e. e.content_errors) o ∙ b.errors;
        no_failure = ap (λ e. e.failure) o ∙ b.failure;
        elapsed = a.elapsed;
        elapsed_is = ap (λ e. e.elapsed) o;
        later = a.later;
        duration_threshold = ap (λ e. e.duration_threshold_met) o;
      }

  fits_of :
      (n : ℕ) → (n == 0 || ltb device_out_window n) ≡ false → (1 ≤ n) × (n ≤ device_out_window)
  fits_of n h = ground arith

  -- A long echo with exit status 0 had a chunk of 1 to 2048 bytes, has opened the session, and has
  -- made turns from there on, each of which drew a payload in the state that the turn before had
  -- left and on which `echo` returned. The payloads' number and total length are those of the
  -- evidence; that length is at least the required one, and at the loop's end at least the required
  -- time had passed since the start. No content error is counted, no failure is kept, and the
  -- duration is judged on an elapsed time that is not 0.
  pub run_loopback-IsLoopRun :
      (turns rounds timeout : ℕ) (inputs : Inputs) (out : LoopEvidence) (s s' : UsbState World)
      → run_loopback env args turns rounds timeout inputs s ≡ (returned (0, out), s')
      → IsLoopRun rounds timeout inputs s out
  unfolding run_loopback
  run_loopback-IsLoopRun turns rounds timeout inputs out s s' h =
      elim (Bool-cases (args.chunk == 0 || ltb device_out_window args.chunk)) [
        | inl bad ↦
            let one =
              fail_loop_exit chunk_size loop_started out 0 s s' (rw (bad, run_loopback) at h) in
            absurd (omega (arith, one))
        | inr good ↦ elim (Option-cases (run_metadata inputs)) [
          | inl missing ↦
              let one =
                fail_loop_exit UsbError.bad_metadata loop_started out 0 s s'
                  (rw (good, missing, run_loopback) at h) in
              absurd (omega (arith, one))
          | inr (metadata, m) ↦
              let s1 = record s { world = (env.write_evidence s.world).1 } in
              elim (Bool-cases (env.write_evidence s.world).0) [
                | inr lost ↦
                    let one =
                      fail_loop_exit os_error loop_started out 0 s1 s'
                        (rw (good, m, lost, run_loopback) at h) in
                    absurd (omega (arith, one))
                | inl written ↦
                    session_IsLoopRun turns rounds timeout inputs metadata out s s'
                      (fits_of args.chunk good) m (rw (good, m, written, run_loopback) at h)
              ]
        ]
      ]
