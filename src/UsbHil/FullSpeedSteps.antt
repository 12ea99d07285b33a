-- ===== src/UsbHil/FullSpeedSteps.antt =====
-- The parts of a run at Full Speed (scripts/phase3/run_usb_hil.py, `run_fs_fallback`).
use mathlib.Core.Path.{subst}
use hpm5321_can_analyzer.Common.{
  ℕ, zero, suc, ◌+◌, ◌-◌, ◌≤◌, ◌<◌, ◌≡◌, ◌∙◌, refl, sym, ap, min, inl, inr, true, false, some, List,
  ltb, ◌==◌, arith, Bool-cases,
}
use hpm5321_can_analyzer.UsbHil.FullSpeed.{
  IsFullSpeed, validate-IsFullSpeed, validate_fs_descriptor_set, is_qualifier,
  type_device_qualifier, type_configuration, type_other_speed,
}
use hpm5321_can_analyzer.UsbHil.Session.{
  Environment, UsbState, UsbError, os_error, Outcome, returned, raised, cut_off, M, ◌>>=◌, ◌>>◌,
  return, require, echo, read_descriptor, device_out_window, invalid_qualifier, invalid_endpoints,
}
use hpm5321_can_analyzer.UsbHil.Returns.{then_do-Chain, require_returns, returned-injective}
use hpm5321_can_analyzer.UsbHil.RunMatrix.{pass, partial, Ended}
use hpm5321_can_analyzer.UsbHil.Fallback.{
  FsEvidence, answers, validate_descriptors, write_then, after_step, echo_loop, fs_body, fail_fs,
  pass_fs, after_fs,
}

-- The evidence of a pass.
abbrev pub passed_fs : FsEvidence → FsEvidence
passed_fs e = record e {
  status = pass;
  verdict = partial;
  echo_verified = some (e.verified_echo_bytes == e.required_echo_bytes);
}

module _ {World : Type 0} (env : Environment World) where
  -- The session has read the descriptors one after the other, from one state to another, and they
  -- are those of Full Speed.
  pub record HasDescriptors (s s' : UsbState World) : Type 0 where
    pub qualifier : List ℕ
    pub current : List ℕ
    pub other : List ℕ
    pub s1 : UsbState World
    pub s2 : UsbState World
    pub qualifier_read : read_descriptor env type_device_qualifier 10 s ≡ (returned qualifier, s1)
    pub current_read : read_descriptor env type_configuration 512 s1 ≡ (returned current, s2)
    pub other_read : read_descriptor env type_other_speed 512 s2 ≡ (returned other, s')
    pub full_speed : IsFullSpeed (answers qualifier current other)

  -- The state after the evidence has been written.
  abbrev pub on_file : UsbState World → UsbState World
  on_file s = record s { world = (env.write_evidence s.world).1 }

  -- What the random generator gives for a turn, a window at most.
  abbrev pub drawn : (bytes completed : ℕ) → UsbState World → List ℕ × World
  drawn bytes completed s = env.randbytes (min device_out_window (bytes - completed)) s.world

  -- The turns from `completed` to `bytes` bytes: each draws its payload in the state that the turn
  -- before has left, `echo` returns on it, and the evidence is written.
  pub data FsTurns (bytes : ℕ) : (completed : ℕ) → UsbState World → UsbState World → Type 0 where
    all_echoed : {s : UsbState World} → FsTurns bytes bytes s s
    turn :
        {completed : ℕ} {s s1 stop : UsbState World}
        → completed < bytes
        → echo env (drawn bytes completed s).0 (record s { world = (drawn bytes completed s).1 })
          ≡ (returned tt, s1)
        → (env.write_evidence s1.world).0 ≡ true
        → FsTurns bytes (completed + min device_out_window (bytes - completed)) (on_file s1) stop
        → FsTurns bytes completed s stop

  -- The body went on from a step that returned, with the evidence that was written.
  record IsAfter {A : Type 0} (step : Outcome A × UsbState World)
      (next : FsEvidence → M World (Ended FsEvidence)) (after e' : FsEvidence) (s' : UsbState World)
      : Type 0 where
    value : A
    state : UsbState World
    returns : step ≡ (returned value, state)
    written : (env.write_evidence state.world).0 ≡ true
    goes_on : next after (on_file state) ≡ (returned (returned tt, e'), s')

  write_then_goes_on :
      (e e' : FsEvidence) (next : FsEvidence → M World (Ended FsEvidence)) (s s' : UsbState World)
      → write_then env e next s ≡ (returned (returned tt, e'), s')
      → ((env.write_evidence s.world).0 ≡ true)
        × (next e (on_file s) ≡ (returned (returned tt, e'), s'))
  unfolding write_then
  write_then_goes_on e e' next s s' h = elim (Bool-cases (env.write_evidence s.world).0) [
    | inl written ↦ (written, rw (written, write_then) at h)
    | inr lost ↦ let h' = rw (lost, write_then) at h in cc
  ]

  after_step-IsAfter :
      {A : Type 0} (step : Outcome A × UsbState World) (before after e' : FsEvidence)
      (next : FsEvidence → M World (Ended FsEvidence)) (s' : UsbState World)
      → after_step env step before after next ≡ (returned (returned tt, e'), s')
      → IsAfter step next after e' s'
  unfolding after_step
  after_step-IsAfter (cut_off, s) before after e' next s' h = cc
  after_step-IsAfter (raised error, s) before after e' next s' h = cc
  after_step-IsAfter (returned a, s) before after e' next s' h =
      let w = write_then_goes_on after e' next s s' h in
      record { value = a; state = s; returns = refl; written = w.0; goes_on = w.1 }

  ended_with :
      (e e' : FsEvidence) (s s' : UsbState World)
      → ◌≡◌ {A = Outcome (Ended FsEvidence) × UsbState World}
          (returned (returned tt, e), s)
          (returned (returned tt, e'), s')
      → e ≡ e'
  ended_with e e' s s' h = ap (λ x. x.1) (returned-injective (ap (λ p. p.0) h))

  -- The loop has echoed up to `bytes` bytes, and the evidence says so.
  abbrev HasEchoed : (bytes completed : ℕ) → (e e' : FsEvidence) → UsbState World → Type 0
  HasEchoed bytes completed e e' s =
      (e' ≡ record e { verified_echo_bytes = bytes })
      × (stop : UsbState World) × FsTurns bytes completed s stop

  all_verified :
      (bytes completed : ℕ) (e e' : FsEvidence) (s : UsbState World)
      → e.verified_echo_bytes ≡ completed
      → completed ≤ bytes
      → ltb completed bytes ≡ false
      → e ≡ e'
      → HasEchoed bytes completed e e' s
  all_verified bytes completed e e' s v le done is =
      let same : e.verified_echo_bytes ≡ bytes = ground arith in
      let all : bytes ≡ completed = ground arith in
      (
        sym is ∙ (λ i. record e { verified_echo_bytes = same i }),
        s,
        subst (λ c. FsTurns bytes c s s) all all_echoed,
      )

  echo_loop-HasEchoed :
      (fuel bytes completed : ℕ) (e e' : FsEvidence) (s s' : UsbState World)
      → e.verified_echo_bytes ≡ completed
      → completed ≤ bytes
      → echo_loop env fuel bytes completed e s ≡ (returned (returned tt, e'), s')
      → HasEchoed bytes completed e e' s
  unfolding echo_loop
  echo_loop-HasEchoed zero bytes completed e e' s s' v le h =
      elim (Bool-cases (ltb completed bytes)) [
        | inl more ↦ let h' = rw (more, echo_loop) at h in cc
        | inr done ↦
            all_verified bytes completed e e' s v le done
              (ended_with e e' s s' (rw (done, echo_loop) at h))
      ]
  echo_loop-HasEchoed (suc n) bytes completed e e' s s' v le h =
      elim (Bool-cases (ltb completed bytes)) [
        | inr done ↦
            all_verified bytes completed e e' s v le done
              (ended_with e e' s s' (rw (done, echo_loop) at h))
        | inl more ↦
            let size = min device_out_window (bytes - completed) in
            let payload = drawn bytes completed s in
            let x =
              after_step-IsAfter (echo env payload.0 (record s { world = payload.1 })) e
                (record e { verified_echo_bytes = completed + size }) e'
                (λ e'. echo_loop env n bytes (completed + size) e') s'
                (rw (more, echo_loop) at h) in
            let rest =
              echo_loop-HasEchoed n bytes (completed + size)
                (record e { verified_echo_bytes = completed + size }) e' (on_file x.state) s' refl
                (ground arith) x.goes_on in
            (rest.0, rest.1, turn (ground arith) x.returns x.written rest.2)
      ]

  validate-HasDescriptors :
      (found : List ℕ × (List ℕ × List ℕ)) (s s' : UsbState World)
      → validate_descriptors env s ≡ (returned found, s')
      → HasDescriptors s s'
  unfolding validate_descriptors
  validate-HasDescriptors found s s' h =
      let judge = λ (q c o : List ℕ).
        require {World = World} (validate_fs_descriptor_set (answers q c o)) invalid_endpoints
        >> return (q, (c, o)) in
      let c1 =
        then_do-Chain (read_descriptor env type_device_qualifier 10 s)
          (λ q.
            require (is_qualifier q) invalid_qualifier
            >> (read_descriptor env type_configuration 512 >>= λ c.
                read_descriptor env type_other_speed 512 >>= λ o. judge q c o))
          found s' h in
      let q = c1.value in
      let c2 =
        then_do-Chain (require (is_qualifier q) invalid_qualifier c1.state)
          (λ done. read_descriptor env type_configuration 512 >>= λ c.
            read_descriptor env type_other_speed 512 >>= λ o. judge q c o)
          found s' c1.next_is in
      let c3 =
        then_do-Chain (read_descriptor env type_configuration 512 c2.state)
          (λ c. read_descriptor env type_other_speed 512 >>= λ o. judge q c o) found s'
          c2.next_is in
      let c4 =
        then_do-Chain (read_descriptor env type_other_speed 512 c3.state) (λ o. judge q c3.value o)
          found s' c3.next_is in
      let c5 =
        then_do-Chain
          (require (validate_fs_descriptor_set (answers q c3.value c4.value)) invalid_endpoints
            c4.state)
          (λ done. return (q, (c3.value, c4.value))) found s' c4.next_is in
      let r =
        require_returns (validate_fs_descriptor_set (answers q c3.value c4.value)) invalid_endpoints
          c4.state c5.state c5.first_is in
      let r0 = require_returns (is_qualifier q) invalid_qualifier c1.state c2.state c2.first_is in
      let end : c5.state ≡ s' = ap (λ p. p.1) c5.next_is in
      record {
        qualifier = q;
        current = c3.value;
        other = c4.value;
        s1 = c1.state;
        s2 = c3.state;
        qualifier_read = c1.first_is;
        current_read = ap (read_descriptor env type_configuration 512) r0.1 ∙ c3.first_is;
        other_read = c4.first_is ∙ ap (λ x. (returned c4.value, x)) (r.1 ∙ end);
        full_speed = validate-IsFullSpeed (answers q c3.value c4.value) r.0;
      }

  -- What the session has done from the state that it was opened in.
  pub record HasSession (bytes : ℕ) (s : UsbState World) : Type 0 where
    pub validated : UsbState World
    pub descriptors : HasDescriptors s validated
    pub written : (env.write_evidence validated.world).0 ≡ true
    pub stop : UsbState World
    pub turns : FsTurns bytes 0 (on_file validated) stop

  pub fs_body_returns :
      (bytes : ℕ) (e e' : FsEvidence) (s s' : UsbState World)
      → e.verified_echo_bytes ≡ 0
      → fs_body env bytes e s ≡ (returned (returned tt, e'), s')
      → (e' ≡ record e { descriptors_validated = true; verified_echo_bytes = bytes })
        × HasSession bytes s
  unfolding fs_body
  fs_body_returns bytes e e' s s' v h =
      let x =
        after_step-IsAfter (validate_descriptors env s) e
          (record e { descriptors_validated = true }) e' (λ e'. echo_loop env bytes bytes 0 e') s'
          h in
      let y =
        echo_loop-HasEchoed bytes bytes 0 (record e { descriptors_validated = true }) e'
          (on_file x.state) s' v (omega arith) x.goes_on in
      (
        y.0,
        record {
          validated = x.state;
          descriptors = validate-HasDescriptors x.value s x.state x.returns;
          written = x.written;
          stop = y.1;
          turns = y.2;
        },
      )

  pub size_same : (n : ℕ) → (n == n) ≡ true
  size_same n = ground arith

  pub fail_fs_exit :
      (error : UsbError) (e out : FsEvidence) (k : ℕ) (s s' : UsbState World)
      → fail_fs env error e s ≡ (returned (k, out), s')
      → k ≡ 1
  unfolding fail_fs
  fail_fs_exit error e out k s s' h = ground arith

  pass_fs_zero :
      (e out : FsEvidence) (s s' : UsbState World)
      → pass_fs env e s ≡ (returned (0, out), s')
      → out ≡ passed_fs e
  unfolding pass_fs
  pass_fs_zero e out s s' h = elim (Bool-cases (env.write_evidence s.world).0) [
    | inl written ↦
        ap (λ x. x.1) (sym (returned-injective (ap (λ p. p.0) (rw (written, pass_fs) at h))))
    | inr lost ↦
        let h' = rw (lost, pass_fs) at h in
        let one = fail_fs_exit os_error (passed_fs e) out 0 _ s' h' in absurd (omega (arith, one))
  ]

  pub after_fs_zero :
      (e out : FsEvidence) (r : Outcome (Ended FsEvidence) × UsbState World) (s' : UsbState World)
      → after_fs env e r ≡ (returned (0, out), s')
      → (e' : FsEvidence) × (s1 : UsbState World) × (r ≡ (returned (returned tt, e'), s1))
        × (out ≡ passed_fs e')
  unfolding after_fs
  after_fs_zero e out (raised error, s) s' h =
      let one = fail_fs_exit error e out 0 s s' h in absurd (omega (arith, one))
  after_fs_zero e out (cut_off, s) s' h = cc
  after_fs_zero e out (returned (returned done, e'), s) s' h =
      (e', s, refl, pass_fs_zero e' out s s' h)
  after_fs_zero e out (returned (raised error, e'), s) s' h =
      let one = fail_fs_exit error e' out 0 s s' h in absurd (omega (arith, one))
  after_fs_zero e out (returned (cut_off, e'), s) s' h = cc
