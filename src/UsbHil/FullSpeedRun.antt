-- ===== src/UsbHil/FullSpeedRun.antt =====
-- A run at Full Speed that exits with 0 (scripts/phase3/run_usb_hil.py, `run_fs_fallback`).
use hpm5321_can_analyzer.Common.{
  ℕ, ◌≡◌, ◌∙◌, refl, ap, inl, inr, true, none, some, arith, Bool-cases, Option-cases,
}
use hpm5321_can_analyzer.Common.Text.{codes, text_eq, text_eq→eq}
use hpm5321_can_analyzer.Hotplug.Device.{read_text}
use hpm5321_can_analyzer.UsbHil.Session.{
  Environment, UsbState, UsbError, os_error, returned, open_with_retry, with_session,
}
use hpm5321_can_analyzer.UsbHil.Sessions.{with_session_returns}
use hpm5321_can_analyzer.UsbHil.RunMatrix.{Inputs, Metadata, run_metadata, pass, partial}
use hpm5321_can_analyzer.UsbHil.Fallback.{
  FsEvidence, fs_started, fs_body, after_fs, run_fs_fallback,
}
use hpm5321_can_analyzer.UsbHil.FullSpeedSteps.{
  HasSession, on_file, passed_fs, after_fs_zero, fs_body_returns, fail_fs_exit, size_same,
}

-- What a run from the state `s` with exit status 0 shows.
pub record IsFsRun {World : Type 0} (env : Environment World) (bytes rounds timeout : ℕ)
    (inputs : Inputs) (s : UsbState World) (out : FsEvidence) : Type 0 where
  pub metadata : Metadata
  pub metadata_read : run_metadata inputs ≡ some metadata
  pub forced : metadata.forced_full_speed ≡ true
  pub speed : read_text metadata.device "speed" ≡ codes "12"
  pub status : out.status ≡ pass
  pub verdict : out.verdict ≡ partial
  pub required : out.required_echo_bytes ≡ bytes
  pub verified : out.verified_echo_bytes ≡ bytes
  pub echo_verified : out.echo_verified ≡ some true
  pub validated : out.descriptors_validated ≡ true
  pub opened : UsbState World
  pub opens :
      open_with_retry env rounds timeout
        (record { world = (env.init (env.write_evidence s.world).1).1; handle = none })
      ≡ (returned tt, opened)
  pub session : HasSession env bytes opened

module _ {World : Type 0} (env : Environment World) (bytes rounds timeout : ℕ)
    (inputs : Inputs) where
  session_IsFsRun :
      (metadata : Metadata) (out : FsEvidence) (s s' : UsbState World)
      → run_metadata inputs ≡ some metadata
      → metadata.forced_full_speed ≡ true
      → text_eq (read_text metadata.device "speed") (codes "12") ≡ true
      → after_fs env
          (fs_started bytes)
          (with_session env rounds timeout (fs_body env bytes (fs_started bytes)) (on_file env s))
        ≡ (returned (0, out), s')
      → IsFsRun env bytes rounds timeout inputs s out
  session_IsFsRun metadata out s s' m forced speed h =
      let in_body = fs_body env bytes (fs_started bytes) in
      let a =
        after_fs_zero env (fs_started bytes) out
          (with_session env rounds timeout in_body (on_file env s)) s' h in
      let body =
        with_session_returns env rounds timeout in_body (returned tt, a.0) (on_file env s) a.1
          a.2 in
      let b =
        fs_body_returns env bytes (fs_started bytes) a.0 body.before body.after refl body.ran in
      let out_is = a.3 ∙ ap passed_fs b.0 in
      record {
        metadata = metadata;
        metadata_read = m;
        forced = forced;
        speed = text_eq→eq _ _ speed;
        status = ap (λ e. e.status) out_is;
        verdict = ap (λ e. e.verdict) out_is;
        required = ap (λ e. e.required_echo_bytes) out_is;
        verified = ap (λ e. e.verified_echo_bytes) out_is;
        echo_verified = ap (λ e. e.echo_verified) out_is ∙ ap some (size_same env bytes);
        validated = ap (λ e. e.descriptors_validated) out_is;
        opened = body.before;
        opens = body.opened;
        session = b.1;
      }

  -- A run with exit status 0 has found one device at 12 Mbit/s and a manifest of a build that forces
  -- Full Speed, has opened the session and read three descriptors there that are those of Full
  -- Speed, and has then echoed as many bytes as were asked for, in turns of a window at most, each
  -- with a payload drawn in the state that the turn before had left, on which `echo` returned; its
  -- verdict is partial.
  pub run_fs_fallback-IsFsRun :
      (out : FsEvidence) (s s' : UsbState World)
      → run_fs_fallback env bytes rounds timeout inputs s ≡ (returned (0, out), s')
      → IsFsRun env bytes rounds timeout inputs s out
  unfolding run_fs_fallback
  run_fs_fallback-IsFsRun out s s' h = elim (Option-cases (run_metadata inputs)) [
    | inl missing ↦
        let one =
          fail_fs_exit env UsbError.bad_metadata (fs_started bytes) out 0 s s'
            (rw (missing, run_fs_fallback) at h) in
        absurd (omega (arith, one))
    | inr (metadata, m) ↦ elim (Bool-cases metadata.forced_full_speed) [
      | inr free ↦
          let one =
            fail_fs_exit env UsbError.not_forced_full_speed (fs_started bytes) out 0 s s'
              (rw (m, free, run_fs_fallback) at h) in
          absurd (omega (arith, one))
      | inl forced ↦ elim (Bool-cases (text_eq (read_text metadata.device "speed") (codes "12"))) [
        | inr fast ↦
            let one =
              fail_fs_exit env UsbError.wrong_speed (fs_started bytes) out 0 s s'
                (rw (m, forced, fast, run_fs_fallback) at h) in
            absurd (omega (arith, one))
        | inl slow ↦ elim (Bool-cases (env.write_evidence s.world).0) [
          | inr lost ↦
              let one =
                fail_fs_exit env os_error (fs_started bytes) out 0
                  (record s { world = (env.write_evidence s.world).1 }) s'
                  (rw (m, forced, slow, lost, run_fs_fallback) at h) in
              absurd (omega (arith, one))
          | inl written ↦
              session_IsFsRun metadata out s s' m forced slow
                (rw (m, forced, slow, written, run_fs_fallback) at h)
        ]
      ]
    ]
  ]
