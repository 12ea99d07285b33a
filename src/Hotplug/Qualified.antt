-- ===== src/Hotplug/Qualified.antt =====
-- The turns of the loop over the cycles (scripts/phase3/collect_usb_hotplug.py, `collect`).
use mathlib.Core.Path.{subst}
use hpm5321_can_analyzer.Common.{
  ℕ, ◌-◌, ◌*◌, ◌≤◌, ◌≡◌, refl, sym, inl, inr, Bool, true, false, Option, none, some, List, [], ◌∷◌,
  arith, ltb, Bool-cases,
}
use hpm5321_can_analyzer.Hotplug.Device.{Candidate, find_usb_devices, Identity}
use hpm5321_can_analyzer.Hotplug.Smoke.{
  Smoke, Retry, returned, not_started, still_running, round_us, run_smoke_with_retry,
}
use hpm5321_can_analyzer.Hotplug.Collect.{
  Config, Failure, Poll, Watch, failed, unfinished, only, cycle_of, close_cycle, reconnect, turn,
}
use hpm5321_can_analyzer.Hotplug.Closing.{IsWatch, Keeps, IsWatch-IsBroken, close_cycle-Keeps}

round_us-ge : (ms t : ℕ) → ms * 1000000 ≤ t → ms * 1000 ≤ round_us t
unfolding round_us
round_us-ge ms t h = ground arith

cycle_of-number :
    (n absent : ℕ) (here : Candidate) (ready : Option Candidate) (smoke : Smoke)
    → (cycle_of n absent here ready smoke).number ≡ n
unfolding cycle_of
cycle_of-number n absent here none smoke = refl
cycle_of-number n absent here (some ready) smoke = refl

cycle_of-pause :
    (n absent : ℕ) (here : Candidate) (ready : Option Candidate) (smoke : Smoke)
    → (cycle_of n absent here ready smoke).disconnect_us ≡ round_us absent
unfolding cycle_of
cycle_of-pause n absent here none smoke = refl
cycle_of-pause n absent here (some ready) smoke = refl

module _ (config : Config) (identity : Identity) (poll : Poll) (w : Watch)
    (k : IsWatch config identity w) (le : w.cycle_number ≤ config.cycles) where
  reconnect-Keeps :
      (here : Candidate) → Keeps config identity (reconnect config identity poll here w)
  unfolding reconnect
  reconnect-Keeps here =
      elim (Bool-cases
        (ltb (poll.now - w.disconnected_at) (config.minimum_disconnect_ms * 1000000))) [
          | inl short ↦ rw short (IsWatch-IsBroken config identity w k)
          | inr long ↦ rw long (
              by_smoke
                (round_us-ge config.minimum_disconnect_ms (poll.now - w.disconnected_at)
                  (ground arith))
                (run_smoke_with_retry poll.smoke_started config.recovery_timeout poll.attempts []))
        ]
    where
      by_smoke :
          config.minimum_disconnect_ms * 1000 ≤ round_us (poll.now - w.disconnected_at)
          → (r : Retry)
          → Keeps config identity (elim r [
            | returned smoke ↦
                close_cycle identity poll.write_fails
                  (cycle_of w.cycle_number
                    (poll.now - w.disconnected_at)
                    here
                    (only (find_usb_devices poll.ready_candidates config.vid config.pid))
                    smoke)
                  w
            | not_started ↦ failed Failure.os_error w.evidence
            | still_running ↦ unfinished
          ])
      by_smoke long (returned smoke) =
          close_cycle-Keeps config identity poll.write_fails _ w k le
            (cycle_of-number w.cycle_number (poll.now - w.disconnected_at) here _ smoke)
            (subst (λ us. config.minimum_disconnect_ms * 1000 ≤ us)
              (sym (cycle_of-pause w.cycle_number (poll.now - w.disconnected_at) here _ smoke))
              long)
      by_smoke long not_started = IsWatch-IsBroken config identity w k
      by_smoke long still_running = tt

  IsWatch-moved :
      (present : Bool) (at_time : ℕ)
      → IsWatch config identity (record w { present = present; disconnected_at = at_time })
  IsWatch-moved present at_time = record {
    cycles = k.cycles;
    count = k.count;
    completed = k.completed;
    bound = k.bound;
    device = k.device;
  }

  pub turn-Keeps :
      (devices : List Candidate) → Keeps config identity (turn config identity poll devices w)
  unfolding turn reconnect
  turn-Keeps [] = elim (Bool-cases w.present) [
    | inl h ↦ rw h (IsWatch-moved false poll.now)
    | inr h ↦ rw h (IsWatch-moved false w.disconnected_at)
  ]
  turn-Keeps (here ∷ []) = elim (Bool-cases w.present) [
    | inl h ↦ rw h (IsWatch-moved true w.disconnected_at)
    | inr h ↦ rw h (reconnect-Keeps here)
  ]
  turn-Keeps (here ∷ other ∷ others) = IsWatch-IsBroken config identity w k
