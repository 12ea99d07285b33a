-- ===== src/UsbHil/BulkRun.antt =====
-- What the stand-alone echo shows (scripts/phase0/usb_bulk_loopback.py, `main`).
use hpm5321_can_analyzer.Common.{ℕ, ◌+◌, ◌≡◌, List, [], ◌∷◌}
use hpm5321_can_analyzer.UsbHil.FullSpeed.{ep_out, ep_in}
use hpm5321_can_analyzer.UsbHil.Session.{Environment, UsbState, returned, transfer, zeros}

module _ {World : Type 0} (env : Environment World) where
  -- A payload was sent whole, and then it was received.
  pub record IsEchoTurn (handle size : ℕ) (payload : List ℕ) : Type 0 where
    pub sent : List ℕ
    pub before : UsbState World
    pub after_sent : UsbState World
    pub sends : transfer env handle ep_out payload before ≡ (returned sent, after_sent)
    pub ready : UsbState World
    pub after : UsbState World
    pub receives : transfer env handle ep_in (zeros size) ready ≡ (returned payload, after)

  -- Turns of these sizes were done with the handle.
  pub data Turns (handle : ℕ) : List ℕ → Type 0 where
    no_turn : Turns handle []
    turn :
        {sizes : List ℕ} (size : ℕ) (payload : List ℕ)
        → IsEchoTurn handle size payload
        → Turns handle sizes
        → Turns handle (size ∷ sizes)

  abbrev pub total : List ℕ → ℕ
  total [] = 0
  total (n ∷ ns) = n + total ns

  record HasTurned (handle bytes completed : ℕ) : Type 0 where
    sizes : List ℕ
    turns : Turns handle sizes
    adds_up : completed + total sizes ≡ bytes

  -- What a run with exit status 0 shows.
  pub record IsBulkRun (bytes : ℕ) : Type 0 where
    pub handle : ℕ
    pub sizes : List ℕ
    pub turns : Turns handle sizes
    pub adds_up : total sizes ≡ bytes
