-- ===== src/UsbHil/Matrix.antt =====
-- The cases of the matrix and what each does with the session (scripts/phase3/run_usb_hil.py,
-- `build_matrix_cases`).
use hpm5321_can_analyzer.Common.{
  ℕ, zero, suc, ◌+◌, ◌*◌, Bool, true, false, not, List, [], ◌∷◌, ◌++◌, map, length,
}
use hpm5321_can_analyzer.Common.Int.{ℤ}
use hpm5321_can_analyzer.Common.Text.{text_eq}
use hpm5321_can_analyzer.UsbHil.FullSpeed.{ep_out, ep_in}
use hpm5321_can_analyzer.UsbHil.Session.{
  Environment, M, ◌>>=◌, ◌>>◌, return, call, run, require, device_out_window, halted_before,
  halt_not_reported, remained_halted, read_pause_mismatch, write, read, echo, endpoint_halted,
  set_endpoint_halt, expect_endpoint_stall, clear_endpoint_halt, reset_and_reopen,
}

-- The cases, as their names have them.
pub data Case : Type 0 where
  fragment : (size : ℕ) → Case
  backpressure : (delay_ms : ℕ) → Case
  reset_idle : (cycle : ℕ) → Case
  reset_pending : (size : ℕ) → Case
  endpoint_halt : (endpoint : ℕ) → Case

abbrev pub fragment_sizes : List ℕ
fragment_sizes =
    1 ∷ 2 ∷ 7 ∷ 63 ∷ 64 ∷ 65 ∷ 127 ∷ 255 ∷ 511 ∷ 512 ∷ 513 ∷ 1023 ∷ 1024 ∷ 1535 ∷ 1536 ∷ 2047 ∷ 2048
    ∷ []

abbrev pub backpressure_delays_ms : List ℕ
backpressure_delays_ms = 100 ∷ 1000 ∷ 5000 ∷ 15000 ∷ []

abbrev pub reset_pending_sizes : List ℕ
reset_pending_sizes = 1 ∷ 512 ∷ 513 ∷ 2048 ∷ []

-- `range(first, first + count)`
abbrev pub range_from : (first count : ℕ) → List ℕ
range_from first zero = []
range_from first (suc n) = first ∷ range_from (first + 1) n

abbrev pub matrix_cases : List Case
matrix_cases =
    map fragment fragment_sizes
    ++ (map backpressure backpressure_delays_ms
        ++ (map reset_idle (range_from 1 10)
            ++ (map reset_pending reset_pending_sizes ++ map endpoint_halt (ep_out ∷ ep_in ∷ []))))

-- What a case adds to its record; times are in nanoseconds.
pub data Details : Type 0 where
  fragmented : (payload_size iterations verified_bytes : ℕ) → Details
  paused : (host_read_pause_ms verified_bytes probe_bytes : ℕ) → Details
  reset_probed : (reset_cycle probe_bytes reopen : ℕ) → Details
  discarded : (pending_bytes probe_bytes reopen : ℕ) → Details
  halted :
      (endpoint : ℕ) (before set cleared : Bool) (probe_bytes : ℕ) (bulk_result transferred : ℤ)
      → Details

module _ {World : Type 0} (env : Environment World) (rounds recovery_timeout : ℕ) where
  -- `session.echo(payload_bytes(rng, size))`
  unfoldable pub echo_random : (size : ℕ) → M World (Unit {0})
  unfolding echo
  echo_random size = do payload ← call (env.randbytes size); echo env payload

  unfoldable pub echo_times : (count size : ℕ) → M World (Unit {0})
  unfolding echo_random
  echo_times zero size = return tt
  echo_times (suc n) size = do echo_random size; echo_times n size

  unfoldable pub action : Case → M World Details
  unfolding echo_times echo_random write read reset_and_reopen endpoint_halted set_endpoint_halt
      expect_endpoint_stall clear_endpoint_halt
  action (fragment size) = do echo_times 4 size; return (fragmented size 4 (size * 4))
  action (backpressure delay_ms) = do
    payload ← call (env.randbytes device_out_window)
    write env payload
    run (env.sleep (delay_ms * 1000000))
    echoed ← read env (length payload)
    require (text_eq echoed payload) read_pause_mismatch
    echo_random 513
    return (paused delay_ms (length payload + 513) 513)
  action (reset_idle cycle) = do
    reopen ← reset_and_reopen env rounds recovery_timeout
    echo_random 2048
    return (reset_probed cycle 2048 reopen)
  action (reset_pending size) = do
    payload ← call (env.randbytes size)
    write env payload
    run (env.sleep 250000000)
    reopen ← reset_and_reopen env rounds recovery_timeout
    echo_random 2048
    return (discarded size 2048 reopen)
  action (endpoint_halt endpoint) = do
    before ← endpoint_halted env endpoint
    require (not before) (halted_before endpoint)
    set_endpoint_halt env endpoint
    during ← endpoint_halted env endpoint
    require during (halt_not_reported endpoint)
    stall ← expect_endpoint_stall env endpoint
    clear_endpoint_halt env endpoint
    after ← endpoint_halted env endpoint
    require (not after) (remained_halted endpoint)
    echo_random 2048
    return (halted endpoint false true true 2048 stall.0 stall.1)
