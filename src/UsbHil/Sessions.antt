-- ===== src/UsbHil/Sessions.antt =====
-- Bodies of a session (scripts/phase3/run_usb_hil.py, `UsbSession.__enter__` and `__exit__`).
use hpm5321_can_analyzer.Common.{ℕ, ◌≡◌, ap, inl, inr, none, Bool-cases}
use hpm5321_can_analyzer.Common.Int.{pos, eqb_ℤ}
use hpm5321_can_analyzer.UsbHil.Session.{
  Environment, UsbState, Outcome, returned, raised, cut_off, M, open_with_retry, leave,
  with_session,
}
use hpm5321_can_analyzer.UsbHil.Returns.{then_do-Chain, returned-injective}

module _ {World : Type 0} (env : Environment World) {A : Type 0} where
  -- The body has run in the state that the session has been opened in, and its value is passed on.
  pub record IsBodyOf (rounds timeout : ℕ) (body : M World A) (value : A) (s : UsbState World)
      : Type 0 where
    pub before : UsbState World
    pub opened :
        open_with_retry env rounds timeout (record { world = (env.init s.world).1; handle = none })
        ≡ (returned tt, before)
    pub after : UsbState World
    pub ran : body before ≡ (returned value, after)

  leave_returns :
      (value : A) (s' : UsbState World) (r : Outcome A × UsbState World)
      → leave env r ≡ (returned value, s')
      → (after : UsbState World) × (r ≡ (returned value, after))
  unfolding leave
  leave_returns value s' (returned a, s1) h =
      (s1, ap (λ v. (returned v, s1)) (returned-injective (ap (λ p. p.0) h)))
  leave_returns value s' (raised e, s1) h = cc (ap (λ p. p.0) h)
  leave_returns value s' (cut_off, s1) h = cc (ap (λ p. p.0) h)

  pub with_session_returns :
      (rounds timeout : ℕ) (body : M World A) (value : A) (s s' : UsbState World)
      → with_session env rounds timeout body s ≡ (returned value, s')
      → IsBodyOf rounds timeout body value s
  unfolding with_session
  with_session_returns rounds timeout body value s s' h =
      let after_init = env.init s.world in
      elim (Bool-cases (eqb_ℤ after_init.0 (pos 0))) [
        | inr bad ↦ let h' = rw (bad, with_session) at h in cc
        | inl good ↦
            let c =
              then_do-Chain
                (open_with_retry env rounds timeout
                  (record { world = after_init.1; handle = none }))
                (λ done s1. leave env (body s1)) value s' (rw (good, with_session) at h) in
            let left = leave_returns value s' (body c.state) c.next_is in
            record { before = c.state; opened = c.first_is; after = left.0; ran = left.1 }
      ]
