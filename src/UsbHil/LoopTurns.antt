-- ===== src/UsbHil/LoopTurns.antt =====
-- The turns of the long echo (scripts/phase3/run_usb_hil.py, `run_loopback`).
use hpm5321_can_analyzer.Common.{
  ℕ, zero, suc, ◌+◌, ◌-◌, ◌≤◌, ◌≡◌, ◌∙◌, refl, sym, ap, inl, inr, true, List, [], ◌∷◌, length, leb,
  ◌==◌, arith, Bool-cases,
}
use hpm5321_can_analyzer.UsbHil.Session.{
  Environment, UsbState, Outcome, returned, raised, cut_off, M, echo,
}
use hpm5321_can_analyzer.UsbHil.Returns.{returned-injective}
use hpm5321_can_analyzer.UsbHil.RunMatrix.{Ended}
use hpm5321_can_analyzer.UsbHil.Loopback.{
  LoopEvidence, LoopArgs, minimums_met, Totals, counted, with_progress, report, after_report,
  after_echo, loop,
}

-- The bytes of all payloads.
abbrev pub total_length : List (List ℕ) → ℕ
total_length [] = 0
total_length (p ∷ ps) = length p + total_length ps

module _ {World : Type 0} (env : Environment World) (args : LoopArgs) where
  -- What the random generator gives for a turn, after the clock of its test.
  abbrev pub drawn : UsbState World → List ℕ × World
  drawn s = env.randbytes args.chunk (env.monotonic s.world).1

  -- The state after an echo's report: the clock was read, and the evidence was written when due.
  pub data IsReportedTo (s : UsbState World) : UsbState World → Type 0 where
    not_due : IsReportedTo s (record s { world = (env.monotonic s.world).1 })
    evidence_written :
        (env.write_evidence (env.monotonic s.world).1).0 ≡ true
        → IsReportedTo s (record s { world = (env.write_evidence (env.monotonic s.world).1).1 })

  -- The turns from one state to another, with their payloads: each draws its payload in the state
  -- that the turn before has left, and `echo` returns on it.
  pub data LoopTrace : UsbState World → UsbState World → List (List ℕ) → Type 0 where
    no_turn : {s : UsbState World} → LoopTrace s s []
    turn :
        {s s1 s2 stop : UsbState World} {payloads : List (List ℕ)}
        → echo env (drawn s).0 (record s { world = (drawn s).1 }) ≡ (returned tt, s1)
        → IsReportedTo s1 s2
        → LoopTrace s2 stop payloads
        → LoopTrace s stop ((drawn s).0 ∷ payloads)

  abbrev NextTurn : Type 0
  NextTurn = Totals → LoopEvidence → M World (Ended (LoopEvidence × Totals))

  -- The loop went on after a report.
  record GoesOn (s : UsbState World) (t : Totals) (e : LoopEvidence) (next : NextTurn)
      (out : Outcome (Ended (LoopEvidence × Totals)) × UsbState World) : Type 0 where
    evidence : LoopEvidence
    totals : Totals
    state : UsbState World
    reported : IsReportedTo s state
    goes_on : next totals evidence state ≡ out
    same_bytes : totals.total_bytes ≡ t.total_bytes
    same_transfers : totals.transfers ≡ t.transfers
    same_errors : evidence.content_errors ≡ e.content_errors
    same_failure : evidence.failure ≡ e.failure

  report-GoesOn :
      (started : ℕ) (t : Totals) (e : LoopEvidence) (next : NextTurn) (s s' : UsbState World)
      (x : LoopEvidence × Totals)
      → after_report env args (report env args started t e s) next ≡ (returned (returned tt, x), s')
      → GoesOn s t e next (returned (returned tt, x), s')
  unfolding after_report report
  report-GoesOn started t e next s s' x h =
      let clock = env.monotonic s.world in
      let elapsed = clock.0 - started in
      elim (Bool-cases (leb t.next_report clock.0)) [
        | inr early ↦ record {
          evidence = e;
          totals = t;
          state = record s { world = clock.1 };
          reported = not_due;
          goes_on = rw (early, report, after_report) at h;
          same_bytes = refl;
          same_transfers = refl;
          same_errors = refl;
          same_failure = refl;
        }
        | inl due ↦ elim (Bool-cases (elapsed == 0)) [
          | inl instant ↦ let h' = rw (due, instant, report, after_report) at h in cc
          | inr later ↦ elim (Bool-cases (env.write_evidence clock.1).0) [
            | inr lost ↦ let h' = rw (due, later, lost, report, after_report) at h in cc
            | inl written ↦ record {
              evidence = with_progress elapsed t e;
              totals = record t { next_report = clock.0 + args.report_time };
              state = record s { world = (env.write_evidence clock.1).1 };
              reported = evidence_written written;
              goes_on = rw (due, later, written, report, after_report) at h;
              same_bytes = refl;
              same_transfers = refl;
              same_errors = refl;
              same_failure = refl;
            }
          ]
        ]
      ]

  -- An echo returned, and the loop went on.
  record IsTurn (n started : ℕ) (r : Outcome (Unit {0}) × UsbState World) (t : Totals)
      (e : LoopEvidence) (next : NextTurn)
      (out : Outcome (Ended (LoopEvidence × Totals)) × UsbState World) : Type 0 where
    state : UsbState World
    returns : r ≡ (returned tt, state)
    rest : GoesOn state (counted n t) e next out

  after_echo-IsTurn :
      (started n : ℕ) (r : Outcome (Unit {0}) × UsbState World) (t : Totals) (e : LoopEvidence)
      (next : NextTurn) (s' : UsbState World) (x : LoopEvidence × Totals)
      → after_echo env args started n r t e next ≡ (returned (returned tt, x), s')
      → IsTurn n started r t e next (returned (returned tt, x), s')
  unfolding after_echo
  after_echo-IsTurn started n (cut_off, s) t e next s' x h = cc
  after_echo-IsTurn started n (raised error, s) t e next s' x h = cc
  after_echo-IsTurn started n (returned done, s) t e next s' x h = record {
    state = s;
    returns = refl;
    rest = report-GoesOn started (counted n t) e next s s' x h;
  }

  -- What a loop that ends without an error has done from the state `s`.
  pub record HasLooped (started : ℕ) (t : Totals) (e : LoopEvidence) (s : UsbState World)
      (x : LoopEvidence × Totals) : Type 0 where
    pub payloads : List (List ℕ)
    pub stop : UsbState World
    pub trace : LoopTrace s stop payloads
    pub bytes : x.1.total_bytes ≡ t.total_bytes + total_length payloads
    pub transfers : x.1.transfers ≡ t.transfers + length payloads
    pub errors : x.0.content_errors ≡ e.content_errors
    pub failure : x.0.failure ≡ e.failure
    pub enough : args.min_bytes ≤ x.1.total_bytes
    pub enough_time : args.min_time ≤ (env.monotonic stop.world).0 - started

  minimums_both : (a b c d : ℕ) → minimums_met a b c d ≡ true → (c ≤ a) × (d ≤ b)
  unfolding minimums_met
  minimums_both a b c d h = ground arith

  pub loop-HasLooped :
      (turns started : ℕ) (t : Totals) (e : LoopEvidence) (x : LoopEvidence × Totals)
      (s s' : UsbState World)
      → loop env args turns started t e s ≡ (returned (returned tt, x), s')
      → HasLooped started t e s x
  unfolding loop
  loop-HasLooped zero started t e x s s' h = cc
  loop-HasLooped (suc n) started t e x s s' h =
      let clock = env.monotonic s.world in
      let s0 = record s { world = (drawn s).1 } in
      elim (Bool-cases
        (minimums_met t.total_bytes (clock.0 - started) args.min_bytes args.min_time)) [
          | inl met ↦
              let same = ap (λ p. p.1) (returned-injective (ap (λ p. p.0) (rw (met, loop) at h))) in
              let both =
                minimums_both t.total_bytes (clock.0 - started) args.min_bytes args.min_time met in
              record {
                payloads = [];
                stop = s;
                trace = no_turn;
                bytes = ap (λ y. y.1.total_bytes) (sym same) ∙ omega arith;
                transfers = ap (λ y. y.1.transfers) (sym same) ∙ omega arith;
                errors = ap (λ y. y.0.content_errors) (sym same);
                failure = ap (λ y. y.0.failure) (sym same);
                enough = omega (arith, ap (λ y. y.1.total_bytes) same, both.0);
                enough_time = both.1;
              }
          | inr more ↦
              let turn_of =
                after_echo-IsTurn started (length (drawn s).0) (echo env (drawn s).0 s0) t e
                  (λ t' e'. loop env args n started t' e') s' x (rw (more, loop) at h) in
              let g = turn_of.rest in
              let rest = loop-HasLooped n started g.totals g.evidence x g.state s' g.goes_on in
              record {
                payloads = (drawn s).0 ∷ rest.payloads;
                stop = rest.stop;
                trace = turn turn_of.returns g.reported rest.trace;
                bytes = omega (arith, rest.bytes, g.same_bytes);
                transfers = omega (arith, rest.transfers, g.same_transfers);
                errors = rest.errors ∙ g.same_errors;
                failure = rest.failure ∙ g.same_failure;
                enough = rest.enough;
                enough_time = rest.enough_time;
              }
        ]
