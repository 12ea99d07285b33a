-- ===== src/UsbHil/RunMatrix.antt =====
-- The run of the matrix with its evidence (scripts/phase3/run_usb_hil.py, `device_metadata`,
-- `run_metadata`, `run_matrix`). The evidence is kept without texts and wall-clock times.
use hpm5321_can_analyzer.Common.{
  ℕ, ◌+◌, ◌-◌, Bool, true, false, not, Option, none, some, List, [], ◌∷◌, ◌++◌, length,
  if◌then◌else◌,
}
use hpm5321_can_analyzer.Common.Text.{codes}
use hpm5321_can_analyzer.Hotplug.Device.{Candidate, find_usb_devices}
use hpm5321_can_analyzer.UsbHil.Session.{
  Environment, UsbState, UsbError, os_error, stop_iteration, zero_division, is_caught, Outcome,
  returned, raised, cut_off, M, return, call, ◌>>=◌, with_session,
}
use hpm5321_can_analyzer.UsbHil.Matrix.{Case, Details, matrix_cases, action}

-- What the metadata is read from: whether the manifest's build forces Full Speed, `none` if
-- `verified_firmware_manifest` raises, and the directory of devices.
pub record Inputs : Type 0 where
  pub manifest : Option Bool
  pub candidates : List Candidate

pub record Metadata : Type 0 where
  pub forced_full_speed : Bool
  pub device : Candidate

-- `none` is the RuntimeError for another number of devices than one.
unfoldable pub device_metadata : List Candidate → Option Candidate
unfolding find_usb_devices
device_metadata candidates = elim (find_usb_devices candidates (codes "34b7") (codes "1236")) [
  | [] ↦ none
  | device ∷ others ↦ elim others [ [] ↦ some device | other ∷ more ↦ none ]
]

unfoldable pub run_metadata : Inputs → Option Metadata
unfolding device_metadata
run_metadata inputs = elim inputs.manifest [
  | none ↦ none
  | some forced ↦ elim (device_metadata inputs.candidates) [
    | none ↦ none
    | some device ↦ some (record { forced_full_speed = forced; device = device })
  ]
]

pub data RunStatus : Type 0 where
  running pass fail : RunStatus

pub data Verdict : Type 0 where
  pending partial passed not_qualified : Verdict

pub data CaseResult : Type 0 where
  case_passed : Details → CaseResult
  case_failed : UsbError → CaseResult

pub record CaseRecord : Type 0 where
  pub index : ℕ
  pub case_name : Case
  pub elapsed : ℕ
  pub result : CaseResult

pub record MatrixEvidence : Type 0 where
  pub status : RunStatus
  pub usb_005 : Verdict
  pub usb_008 : Verdict
  pub usb_010 : Verdict
  pub required_cases : Option ℕ
  pub completed_cases : Option ℕ
  pub cases : List CaseRecord
  pub failure : Option UsbError

-- `matrix_evidence_boundaries(execution_verdict)`, put into the evidence.
unfoldable pub with_boundaries : Option Verdict → MatrixEvidence → MatrixEvidence
with_boundaries none e = record e { usb_005 = partial; usb_008 = partial; usb_010 = passed }
with_boundaries (some v) e = record e { usb_005 = v; usb_008 = v; usb_010 = v }

abbrev pub matrix_started : MatrixEvidence
matrix_started = record {
  status = running;
  usb_005 = pending;
  usb_008 = pending;
  usb_010 = pending;
  required_cases = none;
  completed_cases = none;
  cases = [];
  failure = none;
}

abbrev pub with_case : CaseRecord → MatrixEvidence → MatrixEvidence
with_case r e = record e { cases = e.cases ++ r ∷ [] }

-- Whether an error is a RuntimeError.
abbrev pub is_runtime_error : UsbError → Bool
is_runtime_error os_error = false
is_runtime_error stop_iteration = false
is_runtime_error zero_division = false
is_runtime_error _ = true

-- How a body ends, with the evidence that it leaves.
abbrev pub Ended : Type 0 → Type 0
Ended E = Outcome (Unit {0}) × E

module _ {World : Type 0} (env : Environment World) (rounds recovery_timeout : ℕ) where
  -- `except RuntimeError` round the action: the case is recorded.
  unfoldable pub failed_case :
      ℕ → Case → (started : ℕ) → UsbError → MatrixEvidence → M World (Ended MatrixEvidence)
  failed_case index c started error e s =
      let clock = env.monotonic s.world in
      if is_runtime_error error
      then (
        returned (
          raised error,
          with_case
              (record {
                index = index;
                case_name = c;
                elapsed = clock.0 - started;
                result = case_failed error;
              })
              e,
        ),
        record s { world = clock.1 },
      )
      else (returned (raised error, e), s)

  -- A case is done, and the evidence is written.
  unfoldable pub after_case :
      ℕ
      → Case
      → (started : ℕ) → Outcome Details × UsbState World
      → MatrixEvidence
      → (MatrixEvidence → M World (Ended MatrixEvidence))
      → Outcome (Ended MatrixEvidence) × UsbState World
  unfolding failed_case
  after_case index c started (cut_off, s) e next = (returned (cut_off, e), s)
  after_case index c started (raised error, s) e next = failed_case index c started error e s
  after_case index c started (returned details, s) e next =
      let clock = env.monotonic s.world in
      let r : CaseRecord = record {
        index = index;
        case_name = c;
        elapsed = clock.0 - started;
        result = case_passed details;
      } in
      let e' = record (with_case r e) { completed_cases = some index } in
      let written = env.write_evidence clock.1 in
      let s' = record s { world = written.1 } in
      if written.0 then next e' s' else (returned (raised os_error, e'), s')

  unfoldable pub run_cases :
      (index : ℕ) → List Case → MatrixEvidence → M World (Ended MatrixEvidence)
  unfolding action after_case
  run_cases index [] e s = (returned (returned tt, e), s)
  run_cases index (c ∷ cs) e s =
      let clock = env.monotonic s.world in
      after_case index c clock.0
        (action env rounds recovery_timeout c (record s { world = clock.1 })) e
        (λ e'. run_cases (index + 1) cs e')

  -- `except (OSError, RuntimeError, json.JSONDecodeError)`: StopIteration is not caught.
  unfoldable pub fail_matrix : UsbError → MatrixEvidence → M World (ℕ × MatrixEvidence)
  unfolding with_boundaries
  fail_matrix error e s =
      let written = env.write_evidence s.world in
      let s' = record s { world = written.1 } in
      if not (is_caught error)
      then (raised error, s)
      else if written.0
      then (
        returned (
          1,
          record (with_boundaries (some not_qualified) e) { status = fail; failure = some error },
        ),
        s',
      )
      else (raised os_error, s')

  unfoldable pub pass_matrix : MatrixEvidence → M World (ℕ × MatrixEvidence)
  unfolding fail_matrix with_boundaries
  pass_matrix e = do
    written ← call env.write_evidence
    let e' = record (with_boundaries none e) { status = pass }
    if written then return (0, e') else fail_matrix os_error e'

  unfoldable pub end_matrix : Ended MatrixEvidence → M World (ℕ × MatrixEvidence)
  unfolding pass_matrix fail_matrix
  end_matrix (returned done, e) s = pass_matrix e s
  end_matrix (raised error, e) s = fail_matrix error e s
  end_matrix (cut_off, e) s = (cut_off, s)

  -- The session could not be entered, or its body has ended.
  unfoldable pub after_session :
      MatrixEvidence
      → Outcome (Ended MatrixEvidence) × UsbState World
      → Outcome (ℕ × MatrixEvidence) × UsbState World
  unfolding end_matrix fail_matrix
  after_session e (returned ended, s) = end_matrix ended s
  after_session e (raised error, s) = fail_matrix error e s
  after_session e (cut_off, s) = (cut_off, s)

  -- The exit status and the evidence.
  unfoldable pub run_matrix : Inputs → M World (ℕ × MatrixEvidence)
  unfolding run_metadata run_cases after_session fail_matrix with_session
  run_matrix inputs = elim (run_metadata inputs) [
    | none ↦ fail_matrix UsbError.bad_metadata matrix_started
    | some metadata ↦
        let e = record matrix_started { required_cases = some (length matrix_cases) } in
        do
          written ← call env.write_evidence
          if written
              then (λ s.
                  after_session e
                    (with_session env rounds recovery_timeout (run_cases 1 matrix_cases e) s))
              else fail_matrix os_error e
  ]
