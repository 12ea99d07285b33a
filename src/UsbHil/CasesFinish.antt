-- ===== src/UsbHil/CasesFinish.antt =====
-- Actions of the cases that are not cut off (scripts/phase3/run_usb_hil.py, `build_matrix_cases`).
use hpm5321_can_analyzer.Common.{ℕ, zero, suc, ◌+◌, ◌*◌, ◌≤◌, refl, true, false, not, arith}
use hpm5321_can_analyzer.Common.Int.{ℤ}
use hpm5321_can_analyzer.UsbHil.Session.{
  Environment, M, ◌>>=◌, ◌>>◌, return, require, call, run, write, read, echo, endpoint_halted,
  set_endpoint_halt, expect_endpoint_stall, clear_endpoint_halt, reset_and_reopen, transfer,
  terminate_hs_out_transfer, halted_before, halt_not_reported, remained_halted,
}
use hpm5321_can_analyzer.UsbHil.Matrix.{
  Case, fragment, backpressure, reset_idle, reset_pending, endpoint_halt, Details, fragmented,
  reset_probed, discarded, halted, echo_random, echo_times, action,
}
use hpm5321_can_analyzer.UsbHil.Finishes.{
  Finishes, then_do-Finishes, echo-Finishes, require-Finishes, write-Finishes, Clock,
  reset_and_reopen-Finishes,
}

module _ {World : Type 0} (env : Environment World) (rounds timeout : ℕ) where
  echo_random-Finishes : (size : ℕ) → Finishes (echo_random env rounds timeout size)
  unfolding echo_random
  echo_random-Finishes size s =
      let payload = env.randbytes size s.world in
      echo-Finishes env payload.0 (record s { world = payload.1 })

  echo_times-Finishes : (count size : ℕ) → Finishes (echo_times env rounds timeout count size)
  unfolding echo_times
  echo_times-Finishes zero size s = refl
  echo_times-Finishes (suc n) size s =
      then_do-Finishes (echo_random env rounds timeout size s)
        (λ done. echo_times env rounds timeout n size) (echo_random-Finishes size s)
        (λ done. echo_times-Finishes n size)

  backpressure-Finishes : (delay : ℕ) → Finishes (action env rounds timeout (backpressure delay))
  unfolding action write read transfer terminate_hs_out_transfer echo_random echo
  backpressure-Finishes delay s = ground arith

  endpoint_halted-Finishes : (endpoint : ℕ) → Finishes (endpoint_halted env endpoint)
  unfolding endpoint_halted
  endpoint_halted-Finishes endpoint s = ground arith

  set_endpoint_halt-Finishes : (endpoint : ℕ) → Finishes (set_endpoint_halt env endpoint)
  unfolding set_endpoint_halt
  set_endpoint_halt-Finishes endpoint s = ground arith

  -- What follows the stall.
  abbrev after_stall : (endpoint : ℕ) → ℤ × ℤ → M World Details
  after_stall endpoint stall =
      clear_endpoint_halt env endpoint
      >> (endpoint_halted env endpoint >>= λ after.
          require (not after) (remained_halted endpoint)
          >> (echo_random env rounds timeout 2048
              >> return (halted endpoint false true true 2048 stall.0 stall.1)))

  -- What follows the request to halt.
  abbrev after_set : (endpoint : ℕ) → M World Details
  after_set endpoint = endpoint_halted env endpoint >>= λ during.
      require during (halt_not_reported endpoint)
      >> (expect_endpoint_stall env endpoint >>= after_stall endpoint)

  after_stall-Finishes : (endpoint : ℕ) (stall : ℤ × ℤ) → Finishes (after_stall endpoint stall)
  unfolding clear_endpoint_halt endpoint_halted echo_random echo write read transfer
      terminate_hs_out_transfer
  after_stall-Finishes endpoint stall s = ground arith

  expect_stall-Finishes : (endpoint : ℕ) → Finishes (expect_endpoint_stall env endpoint)
  unfolding expect_endpoint_stall
  expect_stall-Finishes endpoint s = ground arith

  after_set-Finishes : (endpoint : ℕ) → Finishes (after_set endpoint)
  after_set-Finishes endpoint s =
      then_do-Finishes (endpoint_halted env endpoint s)
        (λ during.
          require during (halt_not_reported endpoint)
          >> (expect_endpoint_stall env endpoint >>= after_stall endpoint))
        (endpoint_halted-Finishes endpoint s)
        (λ during s1.
          then_do-Finishes (require during (halt_not_reported endpoint) s1)
            (λ done. expect_endpoint_stall env endpoint >>= after_stall endpoint)
            (require-Finishes during (halt_not_reported endpoint) s1)
            (λ done s2.
              then_do-Finishes (expect_endpoint_stall env endpoint s2) (after_stall endpoint)
                (expect_stall-Finishes endpoint s2) (after_stall-Finishes endpoint)))

  halt-Finishes : (endpoint : ℕ) → Finishes (action env rounds timeout (endpoint_halt endpoint))
  unfolding action
  halt-Finishes endpoint s =
      then_do-Finishes (endpoint_halted env endpoint s)
        (λ before.
          require (not before) (halted_before endpoint)
          >> (set_endpoint_halt env endpoint >> after_set endpoint))
        (endpoint_halted-Finishes endpoint s)
        (λ before s1.
          then_do-Finishes (require (not before) (halted_before endpoint) s1)
            (λ done. set_endpoint_halt env endpoint >> after_set endpoint)
            (require-Finishes (not before) (halted_before endpoint) s1)
            (λ done s2.
              then_do-Finishes (set_endpoint_halt env endpoint s2) (λ done. after_set endpoint)
                (set_endpoint_halt-Finishes endpoint s2) (λ done. after_set-Finishes endpoint)))

  pending-Finishes :
      (size : ℕ) (next : M World Details)
      → Finishes next
      → Finishes (
          call (env.randbytes size) >>= λ payload.
          write env payload >> (run (env.sleep 250000000) >> next))
  pending-Finishes size next finishes s =
      let payload = env.randbytes size s.world in
      then_do-Finishes (write env payload.0 (record s { world = payload.1 }))
        (λ done. run (env.sleep 250000000) >> next)
        (write-Finishes env payload.0 (record s { world = payload.1 }))
        (λ done s1. finishes (record s1 { world = env.sleep 250000000 s1.world }))

  module _ (clock : Clock env) (enough : timeout + 100000000 ≤ rounds * 100000000) where
    reopen-Finishes :
        (value : ℕ → Details)
        → Finishes (
            reset_and_reopen env rounds timeout >>= λ reopen.
            echo_random env rounds timeout 2048 >> return (value reopen))
    reopen-Finishes value s =
        then_do-Finishes (reset_and_reopen env rounds timeout s)
          (λ reopen. echo_random env rounds timeout 2048 >> return (value reopen))
          (reset_and_reopen-Finishes env clock rounds timeout enough s)
          (λ reopen s1.
            then_do-Finishes (echo_random env rounds timeout 2048 s1)
              (λ done. return (value reopen)) (echo_random-Finishes 2048 s1) (λ done s2. refl))

    pub action-Finishes : (c : Case) → Finishes (action env rounds timeout c)
    unfolding action
    action-Finishes (fragment size) s =
        then_do-Finishes (echo_times env rounds timeout 4 size s)
          (λ done. return (fragmented size 4 (size * 4))) (echo_times-Finishes 4 size s)
          (λ done s1. refl)
    action-Finishes (backpressure delay) s = backpressure-Finishes delay s
    action-Finishes (reset_idle cycle) s = reopen-Finishes (reset_probed cycle 2048) s
    action-Finishes (reset_pending size) s =
        pending-Finishes size
          (reset_and_reopen env rounds timeout >>= λ reopen.
            echo_random env rounds timeout 2048 >> return (discarded size 2048 reopen))
          (reopen-Finishes (discarded size 2048)) s
    action-Finishes (endpoint_halt endpoint) s = halt-Finishes endpoint s
