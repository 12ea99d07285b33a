-- ===== src/UsbHil/Fallback.antt =====
-- The run at Full Speed (scripts/phase3/run_usb_hil.py, `run_fs_fallback`). The evidence is kept
-- without texts, wall-clock times and digests.
use hpm5321_can_analyzer.Common.{
  ℕ, zero, suc, ◌+◌, ◌-◌, min, Bool, true, false, not, Option, none, some, List, ltb, ◌==◌,
  if◌then◌else◌,
}
use hpm5321_can_analyzer.Common.Text.{codes, text_eq}
use hpm5321_can_analyzer.Hotplug.Device.{read_text}
use hpm5321_can_analyzer.UsbHil.FullSpeed.{
  Session, type_configuration, type_device_qualifier, type_other_speed, is_qualifier,
  validate_fs_descriptor_set,
}
use hpm5321_can_analyzer.UsbHil.Session.{
  Environment, UsbState, UsbError, os_error, is_caught, bad_metadata, not_forced_full_speed,
  wrong_speed, invalid_qualifier, invalid_endpoints, Outcome, returned, raised, cut_off, M, return,
  call, require, ◌>>=◌, ◌>>◌, with_session, echo, read_descriptor, device_out_window,
}
use hpm5321_can_analyzer.UsbHil.RunMatrix.{
  Inputs, run_metadata, RunStatus, running, pass, fail, Verdict, pending, partial, not_qualified,
  Ended,
}

pub record FsEvidence : Type 0 where
  pub status : RunStatus
  pub verdict : Verdict
  pub required_echo_bytes : ℕ
  pub verified_echo_bytes : ℕ
  pub descriptors_validated : Bool
  pub echo_verified : Option Bool
  pub failure : Option UsbError

abbrev pub fs_started : (bytes : ℕ) → FsEvidence
fs_started bytes = record {
  status = running;
  verdict = pending;
  required_echo_bytes = bytes;
  verified_echo_bytes = 0;
  descriptors_validated = false;
  echo_verified = none;
  failure = none;
}

-- What three reads have given, as a session's answers.
abbrev pub answers : (qualifier current other : List ℕ) → Session
answers qualifier current other descriptor_type length =
    if descriptor_type == type_device_qualifier
    then some qualifier
    else if descriptor_type == type_configuration
    then some current
    else some other

module _ {World : Type 0} (env : Environment World) where
  -- `validate_fs_descriptor_set` on the session: the qualifier is judged before the others are read.
  unfoldable pub validate_descriptors : M World (List ℕ × (List ℕ × List ℕ))
  unfolding is_qualifier validate_fs_descriptor_set read_descriptor
  validate_descriptors = do
    qualifier ← read_descriptor env type_device_qualifier 10
    require (is_qualifier qualifier) invalid_qualifier
    current ← read_descriptor env type_configuration 512
    other ← read_descriptor env type_other_speed 512
    require (validate_fs_descriptor_set (answers qualifier current other)) invalid_endpoints
    return (qualifier, (current, other))

  -- The evidence is written, and the body goes on.
  unfoldable pub write_then :
      FsEvidence → (FsEvidence → M World (Ended FsEvidence)) → M World (Ended FsEvidence)
  write_then e next s =
      let written = env.write_evidence s.world in
      let s' = record s { world = written.1 } in
      if written.0 then next e s' else (returned (raised os_error, e), s')

  unfoldable pub after_step :
      {A : Type 0}
      → Outcome A × UsbState World
      → (before after : FsEvidence) → (FsEvidence → M World (Ended FsEvidence))
      → Outcome (Ended FsEvidence) × UsbState World
  unfolding write_then
  after_step (cut_off, s) before after next = (returned (cut_off, before), s)
  after_step (raised error, s) before after next = (returned (raised error, before), s)
  after_step (returned a, s) before after next = write_then after next s

  -- The echo loop; `fuel` counts its turns.
  unfoldable pub echo_loop : (fuel bytes completed : ℕ) → FsEvidence → M World (Ended FsEvidence)
  unfolding echo after_step
  echo_loop zero bytes completed e s =
      (returned (if ltb completed bytes then cut_off else returned tt, e), s)
  echo_loop (suc n) bytes completed e s = elim (ltb completed bytes) [
    | false ↦ (returned (returned tt, e), s)
    | true ↦
        let size = min device_out_window (bytes - completed) in
        let payload = env.randbytes size s.world in
        after_step (echo env payload.0 (record s { world = payload.1 })) e
          (record e { verified_echo_bytes = completed + size })
          (λ e'. echo_loop n bytes (completed + size) e')
  ]

  -- The body of the session. A turn echoes at least a byte, so `bytes` turns are enough.
  unfoldable pub fs_body : (bytes : ℕ) → FsEvidence → M World (Ended FsEvidence)
  unfolding validate_descriptors echo_loop after_step
  fs_body bytes e s =
      after_step (validate_descriptors s) e (record e { descriptors_validated = true })
        (λ e'. echo_loop bytes bytes 0 e')

  unfoldable pub fail_fs : UsbError → FsEvidence → M World (ℕ × FsEvidence)
  fail_fs error e s =
      let written = env.write_evidence s.world in
      let s' = record s { world = written.1 } in
      if not (is_caught error)
      then (raised error, s)
      else if written.0
      then (
        returned (1, record e { status = fail; verdict = not_qualified; failure = some error }),
        s',
      )
      else (raised os_error, s')

  unfoldable pub pass_fs : FsEvidence → M World (ℕ × FsEvidence)
  unfolding fail_fs
  pass_fs e = do
    let e' : FsEvidence = record e {
      status = pass;
      verdict = partial;
      echo_verified = some (e.verified_echo_bytes == e.required_echo_bytes);
    }
    written ← call env.write_evidence
    if written then return (0, e') else fail_fs os_error e'

  unfoldable pub after_fs :
      FsEvidence
      → Outcome (Ended FsEvidence) × UsbState World
      → Outcome (ℕ × FsEvidence) × UsbState World
  unfolding pass_fs fail_fs
  after_fs e (raised error, s) = fail_fs error e s
  after_fs e (cut_off, s) = (cut_off, s)
  after_fs e (returned (returned done, e'), s) = pass_fs e' s
  after_fs e (returned (raised error, e'), s) = fail_fs error e' s
  after_fs e (returned (cut_off, e'), s) = (cut_off, s)

  unfoldable pub run_fs_fallback :
      (bytes rounds recovery_timeout : ℕ) → Inputs → M World (ℕ × FsEvidence)
  unfolding run_metadata fs_body after_fs fail_fs with_session read_text
  run_fs_fallback bytes rounds timeout inputs = elim (run_metadata inputs) [
    | none ↦ fail_fs bad_metadata (fs_started bytes)
    | some metadata ↦
        if not metadata.forced_full_speed
        then fail_fs not_forced_full_speed (fs_started bytes)
        else if not (text_eq (read_text metadata.device "speed") (codes "12"))
        then fail_fs wrong_speed (fs_started bytes)
        else do
          written ← call env.write_evidence
          if written
              then (λ s.
                  after_fs (fs_started bytes)
                    (with_session env rounds timeout (fs_body bytes (fs_started bytes)) s))
              else fail_fs os_error (fs_started bytes)
  ]
