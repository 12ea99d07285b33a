-- ===== src/UsbHil/RunsFinish.antt =====
-- Runs that are not cut off (scripts/phase3/run_usb_hil.py, `run_matrix` and `run_fs_fallback`).
use hpm5321_can_analyzer.Common.{
  ℕ, zero, suc, ◌+◌, ◌-◌, ◌*◌, ◌≤◌, ◌≡◌, refl, min, inl, inr, Bool, true, false, some, List, [],
  ◌∷◌, length, ltb, arith, Bool-cases, Option-cases,
}
use hpm5321_can_analyzer.Common.Text.{codes, text_eq}
use hpm5321_can_analyzer.Hotplug.Device.{read_text}
use hpm5321_can_analyzer.UsbHil.FullSpeed.{
  is_qualifier, type_device_qualifier, type_configuration, type_other_speed,
  validate_fs_descriptor_set,
}
use hpm5321_can_analyzer.UsbHil.Session.{
  Environment, UsbError, UsbState, Outcome, returned, raised, cut_off, M, ◌>>=◌, ◌>>◌, return,
  require, read_descriptor, echo, with_session, device_out_window, invalid_qualifier,
  invalid_endpoints, os_error, not_forced_full_speed, wrong_speed,
}
use hpm5321_can_analyzer.UsbHil.Matrix.{Case, Details, matrix_cases, action}
use hpm5321_can_analyzer.UsbHil.RunMatrix.{
  Inputs, run_metadata, MatrixEvidence, matrix_started, Ended, failed_case, after_case, run_cases,
  fail_matrix, pass_matrix, end_matrix, after_session, run_matrix,
}
use hpm5321_can_analyzer.UsbHil.Fallback.{
  FsEvidence, fs_started, answers, validate_descriptors, write_then, after_step, echo_loop, fs_body,
  fail_fs, pass_fs, after_fs, run_fs_fallback,
}
use hpm5321_can_analyzer.UsbHil.Finishes.{
  is_cut_off, Finishes, then_do-Finishes, echo-Finishes, require-Finishes, Clock, with_session-test,
}
use hpm5321_can_analyzer.UsbHil.CasesFinish.{action-Finishes}

-- Whether a session's body was cut off.
abbrev body_cut_off : {E : Type 0} → Outcome (Ended E) → Bool
body_cut_off cut_off = true
body_cut_off (raised e) = false
body_cut_off (returned ended) = is_cut_off ended.0

module _ {World : Type 0} (env : Environment World) (rounds timeout : ℕ) where
  after_case-ends :
      (index : ℕ) (c : Case) (started : ℕ) (r : Outcome Details × UsbState World)
      (e : MatrixEvidence) (next : MatrixEvidence → M World (Ended MatrixEvidence))
      → is_cut_off r.0 ≡ false
      → ((e : MatrixEvidence) (s : UsbState World) → body_cut_off (next e s).0 ≡ false)
      → body_cut_off (after_case env rounds timeout index c started r e next).0 ≡ false
  unfolding after_case failed_case
  after_case-ends index c started (cut_off, s) e next f g = cc
  after_case-ends index c started (raised error, s) e next f g = ground arith
  after_case-ends index c started (returned details, s) e next f g =
      let written = env.write_evidence (env.monotonic s.world).1 in
      elim (Bool-cases written.0) [
        | inl kept ↦ rw (kept, after_case) (g _ _)
        | inr lost ↦ rw (lost, after_case) refl
      ]

  fail_matrix-Finishes :
      (error : UsbError) (e : MatrixEvidence) → Finishes (fail_matrix env rounds timeout error e)
  unfolding fail_matrix
  fail_matrix-Finishes error e s = ground arith

  pass_matrix-Finishes : (e : MatrixEvidence) → Finishes (pass_matrix env rounds timeout e)
  unfolding pass_matrix fail_matrix
  pass_matrix-Finishes e s = ground arith

  after_session-Finishes :
      (e : MatrixEvidence) (r : Outcome (Ended MatrixEvidence) × UsbState World)
      → body_cut_off r.0 ≡ false
      → is_cut_off (after_session env rounds timeout e r).0 ≡ false
  unfolding after_session end_matrix
  after_session-Finishes e (cut_off, s) h = cc
  after_session-Finishes e (raised error, s) h = fail_matrix-Finishes error e s
  after_session-Finishes e (returned (returned done, e'), s) h = pass_matrix-Finishes e' s
  after_session-Finishes e (returned (raised error, e'), s) h = fail_matrix-Finishes error e' s
  after_session-Finishes e (returned (cut_off, e'), s) h = cc

  module _ (clock : Clock env) (enough : timeout + 100000000 ≤ rounds * 100000000) where
    run_cases-ends :
        (index : ℕ) (cs : List Case) (e : MatrixEvidence) (s : UsbState World)
        → body_cut_off (run_cases env rounds timeout index cs e s).0 ≡ false
    unfolding run_cases
    run_cases-ends index [] e s = refl
    run_cases-ends index (c ∷ cs) e s =
        let read = env.monotonic s.world in
        let s0 = record s { world = read.1 } in
        after_case-ends index c read.0 (action env rounds timeout c s0) e
          (λ e'. run_cases env rounds timeout (index + 1) cs e')
          (action-Finishes env rounds timeout clock enough c s0)
          (λ e' s'. run_cases-ends (index + 1) cs e' s')

    -- With a clock that the environment's calls never turn back and that a sleep moves on, and with
    -- a round of the open loop for every 100 ms of the recovery timeout and one more, the run of the
    -- matrix is never cut off: it returns or raises.
    pub run_matrix-Finishes :
        (inputs : Inputs) (s : UsbState World)
        → is_cut_off (run_matrix env rounds timeout inputs s).0 ≡ false
    unfolding run_matrix
    run_matrix-Finishes inputs s = elim (Option-cases (run_metadata inputs)) [
      | inl missing ↦
          rw (missing, run_matrix) (fail_matrix-Finishes UsbError.bad_metadata matrix_started s)
      | inr (metadata, m) ↦
          let e = record matrix_started { required_cases = some (length matrix_cases) } in
          let s1 = record s { world = (env.write_evidence s.world).1 } in
          let body = run_cases env rounds timeout 1 matrix_cases e in
          elim (Bool-cases (env.write_evidence s.world).0) [
            | inr lost ↦ rw (m, lost, run_matrix) (fail_matrix-Finishes UsbError.os_error e s1)
            | inl kept ↦
                rw (m, kept, run_matrix)
                  (after_session-Finishes e (with_session env rounds timeout body s1) (
                    with_session-test env clock rounds timeout enough body_cut_off body (λ e. refl)
                      (λ s. run_cases-ends 1 matrix_cases e s) s1))
          ]
    ]

module _ {World : Type 0} (env : Environment World) where
  after_step-ends :
      {A : Type 0} (r : Outcome A × UsbState World) (before after : FsEvidence)
      (next : FsEvidence → M World (Ended FsEvidence))
      → is_cut_off r.0 ≡ false
      → ((e : FsEvidence) (s : UsbState World) → body_cut_off (next e s).0 ≡ false)
      → body_cut_off (after_step env r before after next).0 ≡ false
  unfolding after_step write_then
  after_step-ends (cut_off, s) before after next f g = cc
  after_step-ends (raised error, s) before after next f g = refl
  after_step-ends (returned a, s) before after next f g =
      elim (Bool-cases (env.write_evidence s.world).0) [
        | inl kept ↦ rw (kept, after_step, write_then) (g _ _)
        | inr lost ↦ rw (lost, after_step, write_then) refl
      ]

  echo_loop-ends :
      (fuel bytes completed : ℕ) (e : FsEvidence) (s : UsbState World)
      → bytes ≤ fuel + completed
      → body_cut_off (echo_loop env fuel bytes completed e s).0 ≡ false
  unfolding echo_loop
  echo_loop-ends zero bytes completed e s enough =
      let done : ltb completed bytes ≡ false = ground arith in rw (done, echo_loop) refl
  echo_loop-ends (suc n) bytes completed e s enough = elim (Bool-cases (ltb completed bytes)) [
    | inr done ↦ rw (done, echo_loop) refl
    | inl more ↦
        let size = min device_out_window (bytes - completed) in
        let payload = env.randbytes size s.world in
        let s0 = record s { world = payload.1 } in
        rw (more, echo_loop)
          (after_step-ends (echo env payload.0 s0) e
            (record e { verified_echo_bytes = completed + size })
            (λ e'. echo_loop env n bytes (completed + size) e') (echo-Finishes env payload.0 s0)
            (λ e' s'. echo_loop-ends n bytes (completed + size) e' s' (ground arith)))
  ]

  read_descriptor-Finishes : (kind size : ℕ) → Finishes (read_descriptor env kind size)
  unfolding read_descriptor
  read_descriptor-Finishes kind size s = ground arith

  judge-Finishes :
      (q c o : List ℕ)
      → Finishes {World = World} {A = List ℕ × (List ℕ × List ℕ)} (
          require (validate_fs_descriptor_set (answers q c o)) invalid_endpoints
          >> return (q, (c, o)))
  judge-Finishes q c o s = elim (Bool-cases (validate_fs_descriptor_set (answers q c o))) [
    | inl good ↦ rw good refl
    | inr bad ↦ rw bad refl
  ]

  validate-Finishes : Finishes (validate_descriptors env)
  unfolding validate_descriptors
  validate-Finishes s =
      let judge = λ (q c o : List ℕ).
        require {World = World} (validate_fs_descriptor_set (answers q c o)) invalid_endpoints
        >> return (q, (c, o)) in
      let rest = λ (q : List ℕ). read_descriptor env type_configuration 512 >>= λ c.
      read_descriptor env type_other_speed 512 >>= λ o. judge q c o in
      then_do-Finishes (read_descriptor env type_device_qualifier 10 s)
        (λ q. require (is_qualifier q) invalid_qualifier >> rest q)
        (read_descriptor-Finishes type_device_qualifier 10 s)
        (λ q s1.
          then_do-Finishes (require (is_qualifier q) invalid_qualifier s1) (λ done. rest q)
            (require-Finishes (is_qualifier q) invalid_qualifier s1)
            (λ done s2.
              then_do-Finishes (read_descriptor env type_configuration 512 s2)
                (λ c. read_descriptor env type_other_speed 512 >>= λ o. judge q c o)
                (read_descriptor-Finishes type_configuration 512 s2)
                (λ c s3.
                  then_do-Finishes (read_descriptor env type_other_speed 512 s3) (λ o. judge q c o)
                    (read_descriptor-Finishes type_other_speed 512 s3)
                    (λ o. judge-Finishes q c o))))

  fs_body-ends :
      (bytes : ℕ) (e : FsEvidence) (s : UsbState World)
      → body_cut_off (fs_body env bytes e s).0 ≡ false
  unfolding fs_body
  fs_body-ends bytes e s =
      after_step-ends (validate_descriptors env s) e (record e { descriptors_validated = true })
        (λ e'. echo_loop env bytes bytes 0 e') (validate-Finishes s)
        (λ e' s'. echo_loop-ends bytes bytes 0 e' s' (omega arith))

  fail_fs-Finishes : (error : UsbError) (e : FsEvidence) → Finishes (fail_fs env error e)
  unfolding fail_fs
  fail_fs-Finishes error e s = ground arith

  pass_fs-Finishes : (e : FsEvidence) → Finishes (pass_fs env e)
  unfolding pass_fs fail_fs
  pass_fs-Finishes e s = ground arith

  after_fs-Finishes :
      (e : FsEvidence) (r : Outcome (Ended FsEvidence) × UsbState World)
      → body_cut_off r.0 ≡ false
      → is_cut_off (after_fs env e r).0 ≡ false
  unfolding after_fs
  after_fs-Finishes e (cut_off, s) h = cc
  after_fs-Finishes e (raised error, s) h = fail_fs-Finishes error e s
  after_fs-Finishes e (returned (returned done, e'), s) h = pass_fs-Finishes e' s
  after_fs-Finishes e (returned (raised error, e'), s) h = fail_fs-Finishes error e' s
  after_fs-Finishes e (returned (cut_off, e'), s) h = cc

  -- With a clock that the environment's calls never turn back and that a sleep moves on, and with a
  -- round of the open loop for every 100 ms of the recovery timeout and one more, the run at Full
  -- Speed is never cut off, however many bytes are asked for: it returns or raises.
  pub run_fs_fallback-Finishes :
      (clock : Clock env) (bytes rounds timeout : ℕ)
      → timeout + 100000000 ≤ rounds * 100000000
      → (inputs : Inputs) (s : UsbState World)
      → is_cut_off (run_fs_fallback env bytes rounds timeout inputs s).0 ≡ false
  unfolding run_fs_fallback
  run_fs_fallback-Finishes clock bytes rounds timeout enough inputs s =
      let e = fs_started bytes in
      elim (Option-cases (run_metadata inputs)) [
        | inl missing ↦ rw (missing, run_fs_fallback) (fail_fs-Finishes UsbError.bad_metadata e s)
        | inr (metadata, m) ↦ elim (Bool-cases metadata.forced_full_speed) [
          | inr free ↦ rw (m, free, run_fs_fallback) (fail_fs-Finishes not_forced_full_speed e s)
          | inl forced ↦
              elim (Bool-cases (text_eq (read_text metadata.device "speed") (codes "12"))) [
                | inr fast ↦
                    rw (m, forced, fast, run_fs_fallback) (fail_fs-Finishes wrong_speed e s)
                | inl slow ↦
                    let s1 = record s { world = (env.write_evidence s.world).1 } in
                    elim (Bool-cases (env.write_evidence s.world).0) [
                      | inr lost ↦
                          rw (m, forced, slow, lost, run_fs_fallback)
                            (fail_fs-Finishes os_error e s1)
                      | inl kept ↦
                          rw (m, forced, slow, kept, run_fs_fallback)
                            (after_fs-Finishes e
                              (with_session env rounds timeout (fs_body env bytes e) s1)
                              (with_session-test env clock rounds timeout enough body_cut_off
                                (fs_body env bytes e) (λ e. refl) (λ s. fs_body-ends bytes e s) s1))
                    ]
              ]
        ]
      ]
