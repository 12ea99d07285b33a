-- ===== src/UsbHil/BulkMain.antt =====
-- The stand-alone echo (scripts/phase0/usb_bulk_loopback.py, `main`). A handle is passed on, so the
-- session's own one is not used; texts and the throughput are left out, but not its division.
use hpm5321_can_analyzer.Common.{
  ℕ, zero, suc, ◌+◌, ◌-◌, min, Bool, true, false, not, none, some, List, ltb, ◌==◌, if◌then◌else◌,
}
use hpm5321_can_analyzer.Common.Int.{ℤ, pos, negsuc, eqb_ℤ}
use hpm5321_can_analyzer.Common.Text.{text_eq}
use hpm5321_can_analyzer.UsbHil.FullSpeed.{ep_out, ep_in}
use hpm5321_can_analyzer.UsbHil.Session.{
  Environment, UsbState, stop_iteration, zero_division, Outcome, returned, raised, cut_off, M,
  ◌>>=◌, ◌>>◌, return, raise, call, require, transfer, terminate_hs_out_transfer, mismatch_at,
  zeros, device_out_window,
}

module _ {World : Type 0} (env : Environment World) where
  -- Whether what came back is the payload; the search for a difference raises where it finds none.
  unfoldable pub compared : (payload echoed : List ℕ) → M World Bool
  unfolding mismatch_at
  compared payload echoed =
      if text_eq echoed payload then return true else elim (mismatch_at payload echoed 0) [
        | none ↦ raise stop_iteration
        | some i ↦ return false
      ]

  unfoldable pub bulk_turn : (handle size : ℕ) → (payload : List ℕ) → M World Bool
  unfolding compared transfer terminate_hs_out_transfer
  bulk_turn handle size payload = do
    sent ← transfer env handle ep_out payload
    terminate_hs_out_transfer env handle size device_out_window
    echoed ← transfer env handle ep_in (zeros size)
    compared payload echoed

  unfoldable pub after_turn : Outcome Bool × UsbState World → M World ℤ → Outcome ℤ × UsbState World
  after_turn (returned same, s) next = if same then next s else (returned (pos 3), s)
  after_turn (raised e, s) next = (raised e, s)
  after_turn (cut_off, s) next = (cut_off, s)

  -- The loop, for at most `fuel` turns.
  unfoldable pub bulk_loop : (fuel chunk bytes completed handle : ℕ) → M World ℤ
  unfolding bulk_turn after_turn
  bulk_loop zero chunk bytes completed handle s =
      (if ltb completed bytes then cut_off else returned (pos 0), s)
  bulk_loop (suc n) chunk bytes completed handle s = elim (ltb completed bytes) [
    | false ↦ (returned (pos 0), s)
    | true ↦
        let size = min chunk (bytes - completed) in
        let payload = env.randbytes size s.world in
        after_turn (bulk_turn handle size payload.0 (record s { world = payload.1 }))
          (λ s'. bulk_loop n chunk bytes (completed + size) handle s')
  ]

  -- The throughput divides by the elapsed time.
  unfoldable pub timed : (started : ℕ) → (status : ℤ) → M World ℤ
  timed started status =
      if eqb_ℤ status (pos 0)
      then (do
        now ← call env.monotonic
        require (not (now - started == 0)) zero_division
        return status)
      else return status

  -- A turn echoes at least a byte, so `bytes` turns are enough.
  unfoldable pub bulk_body : (chunk bytes handle : ℕ) → M World ℤ
  unfolding bulk_loop timed
  bulk_body chunk bytes handle = do
    started ← call env.monotonic
    status ← bulk_loop bytes chunk bytes 0 handle
    timed started status

  -- The `finally` after a claim.
  unfoldable pub leave_bulk : (handle : ℕ) → Outcome ℤ × UsbState World → Outcome ℤ × UsbState World
  leave_bulk handle (result, s) = (
    result,
    record s { world = env.exit (env.close_device handle (env.release_interface handle s.world)) },
  )

  -- The exit status, or what is raised.
  unfoldable pub bulk_main : (chunk bytes : ℕ) → M World ℤ
  unfolding bulk_body leave_bulk
  bulk_main chunk bytes s =
      let started = env.init s.world in
      let opened = env.open_device started.1 in
      elim (eqb_ℤ started.0 (pos 0)) [
        | false ↦ (returned (pos 2), record s { world = started.1 })
        | true ↦ elim opened.0 [
          | none ↦ (returned (negsuc 2), record s { world = env.exit opened.1 })
          | some handle ↦
              let claimed = env.claim_interface handle opened.1 in
              elim (eqb_ℤ claimed.0 (pos 0)) [
                | false ↦ (
                  returned claimed.0,
                  record s { world = env.exit (env.close_device handle claimed.1) },
                )
                | true ↦
                    leave_bulk handle
                      (bulk_body chunk bytes handle (record s { world = claimed.1 }))
              ]
        ]
      ]
