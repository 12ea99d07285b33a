-- ===== src/UsbHil/Finishes.antt =====
-- Calls of the session that are not cut off (scripts/phase3/run_usb_hil.py, `UsbSession`).
use hpm5321_can_analyzer.Common.{
  ℕ, zero, suc, ◌+◌, ◌-◌, ◌*◌, ◌≤◌, ◌≡◌, refl, inl, inr, Bool, true, false, none, List, [], ◌∷◌,
  ltb, arith, Bool-cases, Option-cases,
}
use hpm5321_can_analyzer.Common.Int.{pos, eqb_ℤ}
use hpm5321_can_analyzer.UsbHil.FullSpeed.{ep_out, ep_in}
use hpm5321_can_analyzer.UsbHil.Session.{
  Environment, UsbError, libusb_init, UsbState, Outcome, returned, raised, cut_off, M, then_do,
  ◌>>=◌, ◌>>◌, return, require, call, transfer, terminate_hs_out_transfer, write, read, echo,
  clear_both, open_until, open_with_retry, reset_and_reopen, close_handle, leave, with_session,
}

-- Whether a call was cut off.
abbrev pub is_cut_off : {A : Type 0} → Outcome A → Bool
is_cut_off cut_off = true
is_cut_off (returned a) = false
is_cut_off (raised e) = false

abbrev pub Finishes : {World A : Type 0} → M World A → Type 0
Finishes {World = World} m = (s : UsbState World) → is_cut_off (m s).0 ≡ false

-- Whether the result of a call passes a test that no exception passes.
pub then_do-test :
    {World A B : Type 0} (test : Outcome B → Bool) (first : Outcome A × UsbState World)
    (next : A → M World B)
    → ((e : UsbError) → test (raised e) ≡ false)
    → is_cut_off first.0 ≡ false
    → ((a : A) (s : UsbState World) → test (next a s).0 ≡ false)
    → test (then_do next first).0 ≡ false
then_do-test test (returned a, s) next raises f g = g a s
then_do-test test (raised e, s) next raises f g = raises e
then_do-test test (cut_off, s) next raises f g = cc

pub then_do-Finishes :
    {World A B : Type 0} (first : Outcome A × UsbState World) (next : A → M World B)
    → is_cut_off first.0 ≡ false
    → ((a : A) → Finishes (next a))
    → is_cut_off (then_do next first).0 ≡ false
then_do-Finishes first next f g = then_do-test is_cut_off first next (λ e. refl) f g

pub require-Finishes :
    {World : Type 0} (test : Bool) (e : UsbError) (s : UsbState World)
    → is_cut_off (require test e s).0 ≡ false
require-Finishes true e s = refl
require-Finishes false e s = refl

module _ {World : Type 0} (env : Environment World) where
  pub write-Finishes : (payload : List ℕ) → Finishes (write env payload)
  unfolding write transfer terminate_hs_out_transfer
  write-Finishes payload s = ground arith

  pub echo-Finishes : (payload : List ℕ) → Finishes (echo env payload)
  unfolding echo write transfer terminate_hs_out_transfer read
  echo-Finishes payload s = ground arith

  clear_both-Finishes : Finishes (clear_both env (ep_out ∷ ep_in ∷ []))
  unfolding clear_both
  clear_both-Finishes s = ground arith

-- A clock that the environment's calls never turn back, and that a sleep moves on by its length.
pub record Clock {World : Type 0} (env : Environment World) : Type 0 where
  pub now : World → ℕ
  pub reads : (w : World) → (env.monotonic w).0 ≡ now w
  pub monotonic : (w : World) → now w ≤ now (env.monotonic w).1
  pub opens : (w : World) → now w ≤ now (env.open_device w).1
  pub claims : (h : ℕ) (w : World) → now w ≤ now (env.claim_interface h w).1
  pub closes : (h : ℕ) (w : World) → now w ≤ now (env.close_device h w)
  pub sleeps : (d : ℕ) (w : World) → now w + d ≤ now (env.sleep d w)

module _ {World : Type 0} (env : Environment World) (clock : Clock env) where
  open_until-Finishes :
      (rounds deadline : ℕ) (s : UsbState World)
      → 1 ≤ rounds
      → deadline + 100000000 ≤ clock.now s.world + rounds * 100000000
      → is_cut_off (open_until env rounds deadline s).0 ≡ false
  unfolding open_until
  open_until-Finishes zero deadline s some_round enough = absurd (omega (arith, some_round))
  open_until-Finishes (suc n) deadline s some_round enough =
      let read = env.monotonic s.world in
      let opened = env.open_device read.1 in
      let reads = clock.reads s.world in
      let step1 = clock.monotonic s.world in
      let step2 = clock.opens read.1 in
      elim (Bool-cases (ltb read.0 deadline)) [
        | inr late ↦ rw (late, open_until) refl
        | inl early ↦ elim (Option-cases opened.0) [
          | inl missing ↦
              let later = clock.sleeps 100000000 opened.1 in
              let more : 1 ≤ n = ground arith in
              let rest =
                open_until-Finishes n deadline (record s { world = env.sleep 100000000 opened.1 })
                  more (ground arith) in
              rw (early, missing, open_until) rest
          | inr (h, found) ↦
              let claimed = env.claim_interface h opened.1 in
              elim (Bool-cases (eqb_ℤ claimed.0 (pos 0))) [
                | inl done ↦ rw (early, found, done, open_until) refl
                | inr busy ↦
                    let closed = env.close_device h claimed.1 in
                    let step3 = clock.claims h opened.1 in
                    let step4 = clock.closes h claimed.1 in
                    let later = clock.sleeps 100000000 closed in
                    let more : 1 ≤ n = ground arith in
                    let rest =
                      open_until-Finishes n deadline
                        (record s { world = env.sleep 100000000 closed }) more (ground arith) in
                    rw (early, found, busy, open_until) rest
              ]
        ]
      ]

  pub enough_rounds : (rounds timeout : ℕ) → timeout + 100000000 ≤ rounds * 100000000 → 1 ≤ rounds
  enough_rounds rounds timeout h = omega (arith, h)

  module _ (rounds timeout : ℕ) (enough : timeout + 100000000 ≤ rounds * 100000000) where
    open_with_retry-Finishes : Finishes (open_with_retry env rounds timeout)
    unfolding open_with_retry
    open_with_retry-Finishes s =
        let read = env.monotonic s.world in
        let reads = clock.reads s.world in
        let step = clock.monotonic s.world in
        open_until-Finishes rounds (read.0 + timeout) (record s { world = read.1 })
          (enough_rounds rounds timeout enough) (omega (arith, reads, step, enough))

    reopened-Finishes :
        (started : ℕ) (s : UsbState World)
        → is_cut_off
            ((open_with_retry env rounds timeout
                >> (clear_both env (ep_out ∷ ep_in ∷ [])
                    >> (call env.monotonic >>= λ ended. return (ended - started))))
              s).0
          ≡ false
    reopened-Finishes started s =
        then_do-Finishes (open_with_retry env rounds timeout s)
          (λ done.
            clear_both env (ep_out ∷ ep_in ∷ [])
            >> (call env.monotonic >>= λ ended. return (ended - started)))
          (open_with_retry-Finishes s)
          (λ done s1.
            then_do-Finishes (clear_both env (ep_out ∷ ep_in ∷ []) s1)
              (λ done. call env.monotonic >>= λ ended. return (ended - started))
              (clear_both-Finishes env s1) (λ done s2. refl))

    pub reset_and_reopen-Finishes : Finishes (reset_and_reopen env rounds timeout)
    unfolding reset_and_reopen close_handle
    reset_and_reopen-Finishes s = elim (Option-cases s.handle) [
      | inl closed ↦ rw (closed, reset_and_reopen) refl
      | inr (h, opened) ↦
          let read = env.monotonic s.world in
          let code = env.reset_device h read.1 in
          elim (Bool-cases (eqb_ℤ code.0 (pos 0))) [
            | inr bad ↦ rw (opened, bad, reset_and_reopen) refl
            | inl good ↦
                rw (opened, good, reset_and_reopen)
                  (reopened-Finishes read.0
                    (record { world = env.close_device h code.1; handle = none }))
          ]
    ]

    pub with_session-test :
        {A : Type 0} (test : Outcome A → Bool) (body : M World A)
        → ((e : UsbError) → test (raised e) ≡ false)
        → ((s : UsbState World) → test (body s).0 ≡ false)
        → (s : UsbState World) → test (with_session env rounds timeout body s).0 ≡ false
    unfolding with_session leave
    with_session-test test body raises finishes s =
        let after_init = env.init s.world in
        elim (Bool-cases (eqb_ℤ after_init.0 (pos 0))) [
          | inr bad ↦ rw (bad, with_session) (raises libusb_init)
          | inl good ↦
              let s1 : UsbState World = record { world = after_init.1; handle = none } in
              rw (good, with_session)
                (then_do-test test (open_with_retry env rounds timeout s1)
                  (λ done s2. leave env (body s2)) raises (open_with_retry-Finishes s1)
                  (λ done s2. finishes s2))
        ]
