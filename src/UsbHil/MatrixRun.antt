-- ===== src/UsbHil/MatrixRun.antt =====
-- A run of the matrix that exits with 0 (scripts/phase3/run_usb_hil.py, `run_matrix`).
use mathlib.Core.Path.{subst}
use hpm5321_can_analyzer.Common.{
  ℕ, ◌+◌, ◌-◌, ◌≡◌, ◌∙◌, refl, sym, ap, inl, inr, Option, none, some, List, [], ◌∷◌, ◌++◌, length,
  arith, Bool-cases, Option-cases,
}
use mathlib.Core.List.{append-nil, append_assoc}
use hpm5321_can_analyzer.UsbHil.Session.{
  Environment, UsbState, UsbError, os_error, Outcome, returned, raised, cut_off, M, with_session,
}
use hpm5321_can_analyzer.UsbHil.Matrix.{Case, Details, matrix_cases, action}
use hpm5321_can_analyzer.UsbHil.Returns.{returned-injective}
use hpm5321_can_analyzer.UsbHil.Sessions.{with_session_returns}
use hpm5321_can_analyzer.UsbHil.RunMatrix.{
  Inputs, Metadata, run_metadata, pass, partial, passed, case_passed, CaseRecord, MatrixEvidence,
  matrix_started, is_runtime_error, with_boundaries, Ended, failed_case, after_case, run_cases,
  fail_matrix, pass_matrix, end_matrix, after_session, run_matrix,
}

-- The evidence with these records more.
abbrev with_cases : List CaseRecord → Option ℕ → MatrixEvidence → MatrixEvidence
with_cases rs completed e = record e { cases = e.cases ++ rs; completed_cases = completed }

-- The index of the last of the cases, if there is one.
completed_after : Option ℕ → ℕ → List Case → Option ℕ
completed_after last index [] = last
completed_after last index (c ∷ cs) = completed_after (some index) (index + 1) cs

-- The evidence of a pass, and that before the session.
passed_matrix : MatrixEvidence → MatrixEvidence
unfolding with_boundaries
passed_matrix e = record (with_boundaries none e) { status = pass }

abbrev required_started : MatrixEvidence
required_started = record matrix_started { required_cases = some (length matrix_cases) }

module _ {World : Type 0} (env : Environment World) (rounds recovery_timeout : ℕ) where
  -- Each case was done in turn: its action returned the details that its record has.
  pub data Ran : ℕ → List Case → List CaseRecord → Type 0 where
    ran_nil : {index : ℕ} → Ran index [] []
    ran_case :
        {index : ℕ} {cs : List Case} {rs : List CaseRecord} (c : Case) (details : Details)
        (elapsed : ℕ) (s s' : UsbState World)
        → action env rounds recovery_timeout c s ≡ (returned details, s')
        → Ran (index + 1) cs rs
        → Ran index (c ∷ cs) (
            record { index = index; case_name = c; elapsed = elapsed; result = case_passed details }
            ∷ rs)

  -- What a body that ends without an error has added.
  record HasRun (index : ℕ) (cs : List Case) (e e' : MatrixEvidence) : Type 0 where
    records : List CaseRecord
    ran : Ran index cs records
    evidence_is : e' ≡ with_cases records (completed_after e.completed_cases index cs) e

  module _ (index : ℕ) (c : Case) (started : ℕ) (e e' : MatrixEvidence)
      (next : MatrixEvidence → M World (Ended MatrixEvidence)) where
    -- The case was done, and the rest goes on.
    record IsAfterCase (r : Outcome Details × UsbState World) (stop : UsbState World) : Type 0 where
      details : Details
      elapsed : ℕ
      state : UsbState World
      returns : r ≡ (returned details, state)
      start : UsbState World
      goes_on :
          next
            (with_cases
              (record {
                index = index;
                case_name = c;
                elapsed = elapsed;
                result = case_passed details;
              }
                ∷ [])
              (some index)
              e)
            start
          ≡ (returned (returned tt, e'), stop)

    after_case-IsAfterCase :
        (r : Outcome Details × UsbState World) (stop : UsbState World)
        → after_case env rounds recovery_timeout index c started r e next
          ≡ (returned (returned tt, e'), stop)
        → IsAfterCase r stop
    unfolding after_case failed_case
    after_case-IsAfterCase (cut_off, s) stop h = cc
    after_case-IsAfterCase (raised error, s) stop h = elim (Bool-cases (is_runtime_error error)) [
      | inl runtime ↦ let h' = rw (runtime, after_case, failed_case) at h in cc
      | inr other ↦ let h' = rw (other, after_case, failed_case) at h in cc
    ]
    after_case-IsAfterCase (returned details, s) stop h =
        let clock = env.monotonic s.world in
        elim (Bool-cases (env.write_evidence clock.1).0) [
          | inr lost ↦ let h' = rw (lost, after_case) at h in cc
          | inl written ↦ record {
            details = details;
            elapsed = clock.0 - started;
            state = s;
            returns = refl;
            start = record s { world = (env.write_evidence clock.1).1 };
            goes_on = rw (written, after_case) at h;
          }
        ]

  cases_join :
      (r : CaseRecord) (rs : List CaseRecord) (last : Option ℕ) (k : Option ℕ) (e : MatrixEvidence)
      → with_cases rs last (with_cases (r ∷ []) k e) ≡ with_cases (r ∷ rs) last e
  cases_join r rs last k e =
      ap (λ all. record e { cases = all; completed_cases = last })
        (append_assoc e.cases (r ∷ []) rs)

  cases_none : (e : MatrixEvidence) → e ≡ with_cases [] e.completed_cases e
  cases_none e = ap (λ all. record e { cases = all }) (sym (append-nil e.cases))

  run_cases-HasRun :
      (index : ℕ) (cs : List Case) (e e' : MatrixEvidence) (s s' : UsbState World)
      → run_cases env rounds recovery_timeout index cs e s ≡ (returned (returned tt, e'), s')
      → HasRun index cs e e'
  unfolding run_cases completed_after
  run_cases-HasRun index [] e e' s s' h = record {
    records = [];
    ran = ran_nil;
    evidence_is = sym (ap (λ x. x.1) (returned-injective (ap (λ p. p.0) h))) ∙ cases_none e;
  }
  run_cases-HasRun index (c ∷ cs) e e' s s' h =
      let clock = env.monotonic s.world in
      let s0 = record s { world = clock.1 } in
      let x =
        after_case-IsAfterCase index c clock.0 e e'
          (λ e1. run_cases env rounds recovery_timeout (index + 1) cs e1)
          (action env rounds recovery_timeout c s0) s' h in
      let r : CaseRecord = record {
        index = index;
        case_name = c;
        elapsed = x.elapsed;
        result = case_passed x.details;
      } in
      let rest =
        run_cases-HasRun (index + 1) cs (with_cases (r ∷ []) (some index) e) e' x.start s'
          x.goes_on in
      record {
        records = r ∷ rest.records;
        ran = ran_case c x.details x.elapsed s0 x.state x.returns rest.ran;
        evidence_is =
            rest.evidence_is
            ∙ cases_join r rest.records (completed_after (some index) (index + 1) cs) (some index)
                e;
      }

  fail_matrix_exit :
      (error : UsbError) (e out : MatrixEvidence) (k : ℕ) (s s' : UsbState World)
      → fail_matrix env rounds recovery_timeout error e s ≡ (returned (k, out), s')
      → k ≡ 1
  unfolding fail_matrix
  fail_matrix_exit error e out k s s' h = ground arith

  pass_matrix_zero :
      (e out : MatrixEvidence) (s s' : UsbState World)
      → pass_matrix env rounds recovery_timeout e s ≡ (returned (0, out), s')
      → out ≡ passed_matrix e
  unfolding pass_matrix with_boundaries passed_matrix
  pass_matrix_zero e out s s' h = elim (Bool-cases (env.write_evidence s.world).0) [
    | inl written ↦
        ap (λ x. x.1) (sym (returned-injective (ap (λ p. p.0) (rw (written, pass_matrix) at h))))
    | inr lost ↦
        let one =
          fail_matrix_exit os_error (passed_matrix e) out 0 _ s' (rw (lost, pass_matrix) at h) in
        absurd (omega (arith, one))
  ]

  after_session_zero :
      (e out : MatrixEvidence) (r : Outcome (Ended MatrixEvidence) × UsbState World)
      (s' : UsbState World)
      → after_session env rounds recovery_timeout e r ≡ (returned (0, out), s')
      → (e' : MatrixEvidence) × (s1 : UsbState World) × (r ≡ (returned (returned tt, e'), s1))
        × (out ≡ passed_matrix e')
  unfolding after_session end_matrix
  after_session_zero e out (raised error, s) s' h =
      let one = fail_matrix_exit error e out 0 s s' h in absurd (omega (arith, one))
  after_session_zero e out (cut_off, s) s' h = cc
  after_session_zero e out (returned (returned done, e'), s) s' h =
      (e', s, refl, pass_matrix_zero e' out s s' h)
  after_session_zero e out (returned (raised error, e'), s) s' h =
      let one = fail_matrix_exit error e' out 0 s s' h in absurd (omega (arith, one))
  after_session_zero e out (returned (cut_off, e'), s) s' h = cc

  -- What a run with exit status 0 shows.
  pub record IsMatrixRun (inputs : Inputs) (out : MatrixEvidence) : Type 0 where
    pub metadata : Metadata
    pub metadata_read : run_metadata inputs ≡ some metadata
    pub status : out.status ≡ pass
    pub usb_005 : out.usb_005 ≡ partial
    pub usb_008 : out.usb_008 ≡ partial
    pub usb_010 : out.usb_010 ≡ passed
    pub ran : Ran 1 matrix_cases out.cases
    pub required : out.required_cases ≡ some 37
    pub completed : out.completed_cases ≡ some 37

  session_IsMatrixRun :
      (inputs : Inputs) (metadata : Metadata) (out : MatrixEvidence) (s s' : UsbState World)
      → run_metadata inputs ≡ some metadata
      → after_session env rounds recovery_timeout required_started (
          with_session env rounds recovery_timeout
            (run_cases env rounds recovery_timeout 1 matrix_cases required_started)
            s)
        ≡ (returned (0, out), s')
      → IsMatrixRun inputs out
  unfolding completed_after passed_matrix
  session_IsMatrixRun inputs metadata out s s' m h =
      let e = required_started in
      let body = run_cases env rounds recovery_timeout 1 matrix_cases e in
      let a = after_session_zero e out (with_session env rounds recovery_timeout body s) s' h in
      let in_session =
        with_session_returns env rounds recovery_timeout body (returned tt, a.0) s a.1 a.2 in
      let b =
        run_cases-HasRun 1 matrix_cases e a.0 in_session.before in_session.after in_session.ran in
      let out_is = a.3 ∙ ap passed_matrix b.evidence_is in
      record {
        metadata = metadata;
        metadata_read = m;
        status = ap (λ e. e.status) out_is;
        usb_005 = ap (λ e. e.usb_005) out_is;
        usb_008 = ap (λ e. e.usb_008) out_is;
        usb_010 = ap (λ e. e.usb_010) out_is;
        ran = subst (λ e. Ran 1 matrix_cases e.cases) (sym out_is) b.ran;
        required = ap (λ e. e.required_cases) out_is;
        completed = ap (λ e. e.completed_cases) out_is;
      }

  -- A run of the matrix with exit status 0 has done the 37 cases in their order, each with an
  -- action that returned the details of its record; the evidence has the records, completed and
  -- required counts of 37, and the verdicts partial, partial and passed.
  pub run_matrix-IsMatrixRun :
      (inputs : Inputs) (out : MatrixEvidence) (s s' : UsbState World)
      → run_matrix env rounds recovery_timeout inputs s ≡ (returned (0, out), s')
      → IsMatrixRun inputs out
  unfolding run_matrix
  run_matrix-IsMatrixRun inputs out s s' h = elim (Option-cases (run_metadata inputs)) [
    | inl missing ↦
        let one =
          fail_matrix_exit UsbError.bad_metadata matrix_started out 0 s s'
            (rw (missing, run_matrix) at h) in
        absurd (omega (arith, one))
    | inr (metadata, m) ↦
        let s1 = record s { world = (env.write_evidence s.world).1 } in
        elim (Bool-cases (env.write_evidence s.world).0) [
          | inr lost ↦
              let one =
                fail_matrix_exit os_error required_started out 0 s1 s'
                  (rw (m, lost, run_matrix) at h) in
              absurd (omega (arith, one))
          | inl written ↦
              session_IsMatrixRun inputs metadata out s1 s' m (rw (m, written, run_matrix) at h)
        ]
  ]
