-- ===== src/UsbHil/MatrixErrors.antt =====
-- How a run of the matrix can end (scripts/phase3/run_usb_hil.py, `run_matrix`).
use hpm5321_can_analyzer.Common.{
  ℕ, ◌≡◌, ◌⊎◌, refl, inl, inr, true, false, none, some, length, Bool-cases, Option-cases,
}
use hpm5321_can_analyzer.UsbHil.Session.{
  Environment, UsbState, UsbError, os_error, is_caught, Outcome, returned, raised, cut_off,
  with_session,
}
use hpm5321_can_analyzer.UsbHil.Matrix.{matrix_cases}
use hpm5321_can_analyzer.UsbHil.RunMatrix.{
  Inputs, run_metadata, pass, fail, partial, passed, not_qualified, MatrixEvidence, matrix_started,
  with_boundaries, Ended, run_cases, fail_matrix, pass_matrix, end_matrix, after_session,
  run_matrix,
}

-- The evidence of a run that exits with this status.
pub data IsReportOf : (exit_code : ℕ) → MatrixEvidence → Type 0 where
  report_pass :
      {e : MatrixEvidence}
      → e.status ≡ pass
      → e.usb_005 ≡ partial
      → e.usb_008 ≡ partial
      → e.usb_010 ≡ passed
      → IsReportOf 0 e
  report_fail :
      {e : MatrixEvidence} (error : UsbError)
      → is_caught error ≡ true
      → e.failure ≡ some error
      → e.status ≡ fail
      → e.usb_005 ≡ not_qualified
      → e.usb_008 ≡ not_qualified
      → e.usb_010 ≡ not_qualified
      → IsReportOf 1 e

-- A result with its report, an exception that is not caught or comes from the evidence file, or a cut.
abbrev pub IsAllowed : Outcome (ℕ × MatrixEvidence) → Type 0
IsAllowed (returned out) = IsReportOf out.0 out.1
IsAllowed (raised error) = (error ≡ os_error) ⊎ (is_caught error ≡ false)
IsAllowed cut_off = Unit {0}

module _ {World : Type 0} (env : Environment World) (rounds timeout : ℕ) where
  fail_matrix-IsAllowed :
      (error : UsbError) (e : MatrixEvidence) (s : UsbState World)
      → IsAllowed (fail_matrix env rounds timeout error e s).0
  unfolding fail_matrix with_boundaries
  fail_matrix-IsAllowed error e s = elim (Bool-cases (is_caught error)) [
    | inr free ↦ rw (free, fail_matrix) (inr free)
    | inl caught ↦ elim (Bool-cases (env.write_evidence s.world).0) [
      | inl kept ↦
          rw (caught, kept, fail_matrix) (report_fail error caught refl refl refl refl refl)
      | inr lost ↦ rw (caught, lost, fail_matrix) (inl refl)
    ]
  ]

  pass_matrix-IsAllowed :
      (e : MatrixEvidence) (s : UsbState World) → IsAllowed (pass_matrix env rounds timeout e s).0
  unfolding pass_matrix with_boundaries
  pass_matrix-IsAllowed e s = elim (Bool-cases (env.write_evidence s.world).0) [
    | inl kept ↦ rw (kept, pass_matrix) (report_pass refl refl refl refl)
    | inr lost ↦
        rw (lost, pass_matrix)
          (fail_matrix-IsAllowed os_error (record (with_boundaries none e) { status = pass })
            (record s { world = (env.write_evidence s.world).1 }))
  ]

  after_session-IsAllowed :
      (e : MatrixEvidence) (r : Outcome (Ended MatrixEvidence) × UsbState World)
      → IsAllowed (after_session env rounds timeout e r).0
  unfolding after_session end_matrix
  after_session-IsAllowed e (cut_off, s) = tt
  after_session-IsAllowed e (raised error, s) = fail_matrix-IsAllowed error e s
  after_session-IsAllowed e (returned (returned done, e'), s) = pass_matrix-IsAllowed e' s
  after_session-IsAllowed e (returned (raised error, e'), s) = fail_matrix-IsAllowed error e' s
  after_session-IsAllowed e (returned (cut_off, e'), s) = tt

  -- A run of the matrix that returns has the exit status 0 and evidence that passes with the
  -- verdicts partial, partial and passed, or the exit status 1 and evidence that fails with an error
  -- that the handler catches and no verdict qualified. An exception that leaves it is one that the
  -- handler does not catch or an error of the evidence file.
  pub run_matrix-IsAllowed :
      (inputs : Inputs) (s : UsbState World) → IsAllowed (run_matrix env rounds timeout inputs s).0
  unfolding run_matrix
  run_matrix-IsAllowed inputs s = elim (Option-cases (run_metadata inputs)) [
    | inl missing ↦
        rw (missing, run_matrix) (fail_matrix-IsAllowed UsbError.bad_metadata matrix_started s)
    | inr (metadata, m) ↦
        let e = record matrix_started { required_cases = some (length matrix_cases) } in
        let s1 = record s { world = (env.write_evidence s.world).1 } in
        elim (Bool-cases (env.write_evidence s.world).0) [
          | inr lost ↦ rw (m, lost, run_matrix) (fail_matrix-IsAllowed os_error e s1)
          | inl kept ↦
              rw (m, kept, run_matrix)
                (after_session-IsAllowed e (
                  with_session env rounds timeout (run_cases env rounds timeout 1 matrix_cases e)
                    s1))
        ]
  ]
