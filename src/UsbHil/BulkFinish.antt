-- ===== src/UsbHil/BulkFinish.antt =====
-- The stand-alone echo is not cut off (scripts/phase0/usb_bulk_loopback.py, `main`).
use hpm5321_can_analyzer.Common.{
  ℕ, zero, suc, ◌+◌, ◌-◌, ◌≤◌, ◌≡◌, refl, min, inl, inr, Bool, true, false, List, ltb, arith,
  Bool-cases, Option-cases,
}
use hpm5321_can_analyzer.Common.Int.{ℤ, pos, eqb_ℤ}
use hpm5321_can_analyzer.UsbHil.Session.{
  Environment, UsbState, Outcome, returned, raised, cut_off, M, transfer, terminate_hs_out_transfer,
}
use hpm5321_can_analyzer.UsbHil.Finishes.{is_cut_off, Finishes, then_do-Finishes}
use hpm5321_can_analyzer.UsbHil.BulkMain.{
  compared, bulk_turn, after_turn, bulk_loop, timed, bulk_body, leave_bulk, bulk_main,
}

module _ {World : Type 0} (env : Environment World) where
  bulk_turn-Finishes :
      (handle size : ℕ) (payload : List ℕ) → Finishes (bulk_turn env handle size payload)
  unfolding bulk_turn transfer terminate_hs_out_transfer compared
  bulk_turn-Finishes handle size payload s = ground arith

  after_turn-Finishes :
      (r : Outcome Bool × UsbState World) (next : M World ℤ)
      → is_cut_off r.0 ≡ false
      → Finishes next
      → is_cut_off (after_turn env r next).0 ≡ false
  unfolding after_turn
  after_turn-Finishes (returned true, s) next f g = g s
  after_turn-Finishes (returned false, s) next f g = refl
  after_turn-Finishes (raised e, s) next f g = refl
  after_turn-Finishes (cut_off, s) next f g = cc

  bulk_loop-Finishes :
      (fuel chunk bytes completed handle : ℕ) (s : UsbState World)
      → 1 ≤ chunk
      → bytes ≤ fuel + completed
      → is_cut_off (bulk_loop env fuel chunk bytes completed handle s).0 ≡ false
  unfolding bulk_loop
  bulk_loop-Finishes zero chunk bytes completed handle s some_chunk enough =
      let done : ltb completed bytes ≡ false = ground arith in rw (done, bulk_loop) refl
  bulk_loop-Finishes (suc n) chunk bytes completed handle s some_chunk enough =
      elim (Bool-cases (ltb completed bytes)) [
        | inr done ↦ rw (done, bulk_loop) refl
        | inl more ↦
            let size = min chunk (bytes - completed) in
            let payload = env.randbytes size s.world in
            let s0 = record s { world = payload.1 } in
            rw (more, bulk_loop)
              (after_turn-Finishes (bulk_turn env handle size payload.0 s0)
                (λ s'. bulk_loop env n chunk bytes (completed + size) handle s')
                (bulk_turn-Finishes handle size payload.0 s0)
                (λ s'.
                  bulk_loop-Finishes n chunk bytes (completed + size) handle s' some_chunk
                    (ground arith)))
      ]

  timed-Finishes : (started : ℕ) (status : ℤ) → Finishes (timed env started status)
  unfolding timed
  timed-Finishes started status s = ground arith

  bulk_body-Finishes :
      (chunk bytes handle : ℕ) → 1 ≤ chunk → Finishes (bulk_body env chunk bytes handle)
  unfolding bulk_body
  bulk_body-Finishes chunk bytes handle some_chunk s =
      let read = env.monotonic s.world in
      let s0 = record s { world = read.1 } in
      then_do-Finishes (bulk_loop env bytes chunk bytes 0 handle s0) (timed env read.0)
        (bulk_loop-Finishes bytes chunk bytes 0 handle s0 some_chunk (omega arith))
        (timed-Finishes read.0)

  -- For a chunk of at least a byte, the stand-alone echo is never cut off: it returns or raises.
  pub bulk_main-Finishes :
      (chunk bytes : ℕ) (s : UsbState World)
      → 1 ≤ chunk
      → is_cut_off (bulk_main env chunk bytes s).0 ≡ false
  unfolding bulk_main leave_bulk
  bulk_main-Finishes chunk bytes s some_chunk =
      let started = env.init s.world in
      let opened = env.open_device started.1 in
      elim (Bool-cases (eqb_ℤ started.0 (pos 0))) [
        | inr bad ↦ rw (bad, bulk_main) refl
        | inl good ↦ elim (Option-cases opened.0) [
          | inl missing ↦ rw (good, missing, bulk_main) refl
          | inr (handle, found) ↦
              let claimed = env.claim_interface handle opened.1 in
              elim (Bool-cases (eqb_ℤ claimed.0 (pos 0))) [
                | inr busy ↦ rw (good, found, busy, bulk_main) refl
                | inl free ↦
                    rw (good, found, free, bulk_main)
                      (bulk_body-Finishes chunk bytes handle some_chunk
                        (record s { world = claimed.1 }))
              ]
        ]
      ]
