-- ===== src/Hotplug/GoodCycles.antt =====
-- Schedules of good cycles (scripts/phase3/collect_usb_hotplug.py, the loop over the cycles).
use mathlib.Core.Path.{subst}
use hpm5321_can_analyzer.Common.{
  ℕ, zero, suc, ◌+◌, ◌-◌, ◌*◌, ◌≤◌, ◌<◌, ◌≡◌, refl, sym, ap, ◌∙◌, ◌⊎◌, inl, inr, Bool, true, false,
  Option, some, List, [], ◌∷◌, ◌++◌, arith, ltb, leb,
}
use hpm5321_can_analyzer.Common.Int.{pos, eqb_ℤ}
use hpm5321_can_analyzer.Hotplug.Device.{
  Candidate, find_usb_devices, Identity, usb_identity, identity_eq_refl,
}
use hpm5321_can_analyzer.Hotplug.Smoke.{Attempt, Smoke, returned, run_smoke_with_retry}
use hpm5321_can_analyzer.Hotplug.Retry.{AreRetried, retry_returns}
use hpm5321_can_analyzer.Hotplug.Collect.{
  Config, Cycle, Evidence, Outcome, Poll, Watch, next, is_identity, cycle_of, close_cycle,
  reconnect, turn, watch, finish, node_readable, node_writable,
}

-- The smoke exits with 0 in time: failed attempts before the deadline, and then a clean one.
pub record IsClean (started timeout : ℕ) (attempts : List Attempt) : Type 0 where
  pub before : List Attempt
  pub last : Attempt
  pub after : List Attempt
  pub split : attempts ≡ before ++ last ∷ after
  pub retried : AreRetried (started + timeout) before
  pub exit_code : last.exit_code ≡ some (pos 0)

pub IsClean-returns :
    (started timeout : ℕ) (attempts : List Attempt)
    → IsClean started timeout attempts
    → (smoke : Smoke) × (run_smoke_with_retry started timeout attempts [] ≡ returned smoke)
      × (smoke.exit_code ≡ pos 0)
IsClean-returns started timeout attempts c =
    let r =
      retry_returns started timeout c.before c.after c.last (pos 0) [] c.retried
        (record { has_code = c.exit_code; ends = inl refl }) in
    (r.0, ap (λ l. run_smoke_with_retry started timeout l []) c.split ∙ r.1, r.2)

-- The device is back: alone, after the least pause, clean, as itself and with access.
pub record IsReturn (config : Config) (identity : Identity) (since : ℕ) (poll : Poll) : Type 0 where
  pub here : Candidate
  pub found : find_usb_devices poll.candidates config.vid config.pid ≡ here ∷ []
  pub pause : config.minimum_disconnect_ms * 1000000 ≤ poll.now - since
  pub clean : IsClean poll.smoke_started config.recovery_timeout poll.attempts
  pub ready : Candidate
  pub ready_found : find_usb_devices poll.ready_candidates config.vid config.pid ≡ ready ∷ []
  pub same : usb_identity ready ≡ identity
  pub readable : node_readable ready ≡ true
  pub writable : node_writable ready ≡ true
  pub written : poll.write_fails ≡ false

-- The run ends with exit status 0.
abbrev pub Completes : Option Outcome → Type 0
Completes run = (out : Outcome) × (run ≡ some out) × (out.exit_status ≡ some 0)

module _ (config : Config) (identity : Identity) where
  -- `left` cycles are still to come. In each poll, before the deadline, a device that is there is
  -- still there or has gone, and one that has gone is still away or makes a good return.
  abbrev pub IsSchedule : (left : ℕ) (present : Bool) (since : ℕ) → List Poll → Type 0
  IsSchedule zero present since polls = Unit
  IsSchedule (suc left) present since [] = ⊥
  IsSchedule (suc left) true since (poll ∷ polls) =
      (poll.tested < config.overall_timeout)
      × (((here : Candidate) × (find_usb_devices poll.candidates config.vid config.pid ≡ here ∷ [])
            × IsSchedule (suc left) true since polls)
          ⊎ ((find_usb_devices poll.candidates config.vid config.pid ≡ [])
              × IsSchedule (suc left) false poll.now polls))
  IsSchedule (suc left) false since (poll ∷ polls) =
      (poll.tested < config.overall_timeout)
      × (((find_usb_devices poll.candidates config.vid config.pid ≡ [])
            × IsSchedule (suc left) false since polls)
          ⊎ (IsReturn config identity since poll × IsSchedule left true since polls))

  abbrev watching : Bool → (since n : ℕ) → Evidence → Watch
  watching present since n e = record {
    present = present;
    disconnected_at = since;
    cycle_number = n;
    evidence = e;
  }

  -- The evidence after a good cycle.
  abbrev after_cycle : ℕ → Cycle → Evidence → Evidence
  after_cycle n c e = record e { cycles = e.cycles ++ c ∷ []; completed_cycles = n }

  cycle_of-good :
      (since n absent : ℕ) (here ready : Candidate) (smoke : Smoke) (e : Evidence)
      → usb_identity ready ≡ identity
      → node_readable ready ≡ true
      → node_writable ready ≡ true
      → smoke.exit_code ≡ pos 0
      → close_cycle identity false
          (cycle_of n absent here (some ready) smoke)
          (watching false since n e)
        ≡ next (
            watching true since
              (n + 1)
              (after_cycle n (cycle_of n absent here (some ready) smoke) e))
  unfolding close_cycle cycle_of
  cycle_of-good since n absent here ready smoke e same r wr clean =
      let is = ap (λ i. is_identity (some i) identity) same ∙ identity_eq_refl identity in
      let code = ap (λ c. eqb_ℤ c (pos 0)) clean in rw (is, r, wr, code) refl

  turn-IsReturn :
      (since n : ℕ) (e : Evidence) (poll : Poll)
      → IsReturn config identity since poll
      → (e' : Evidence) × (turn config identity poll
            (find_usb_devices poll.candidates config.vid config.pid)
            (watching false since n e)
          ≡ next (watching true since (n + 1) e'))
  unfolding turn reconnect
  turn-IsReturn since n e poll x =
      let smoke =
        IsClean-returns poll.smoke_started config.recovery_timeout poll.attempts x.clean in
      let long : ltb (poll.now - since) (config.minimum_disconnect_ms * 1000000) ≡ false =
        ground (arith, x.pause) in
      let e' = after_cycle n (cycle_of n (poll.now - since) x.here (some x.ready) smoke.0) e in
      (
        e',
        rw (x.found, long, smoke.1, x.ready_found, x.written)
            (cycle_of-good since n (poll.now - since) x.here x.ready smoke.0 e x.same x.readable
              x.writable smoke.2),
      )

  turn-away :
      (since n : ℕ) (e : Evidence) (poll : Poll)
      → find_usb_devices poll.candidates config.vid config.pid ≡ []
      → turn config identity poll
          (find_usb_devices poll.candidates config.vid config.pid)
          (watching false since n e)
        ≡ next (watching false since n e)
  unfolding turn
  turn-away since n e poll found = rw (found, turn) refl

  turn-leaves :
      (since n : ℕ) (e : Evidence) (poll : Poll)
      → find_usb_devices poll.candidates config.vid config.pid ≡ []
      → turn config identity poll
          (find_usb_devices poll.candidates config.vid config.pid)
          (watching true since n e)
        ≡ next (watching false poll.now n e)
  unfolding turn
  turn-leaves since n e poll found = rw (found, turn) refl

  turn-stays :
      (since n : ℕ) (e : Evidence) (poll : Poll) (here : Candidate)
      → find_usb_devices poll.candidates config.vid config.pid ≡ here ∷ []
      → turn config identity poll
          (find_usb_devices poll.candidates config.vid config.pid)
          (watching true since n e)
        ≡ next (watching true since n e)
  unfolding turn
  turn-stays since n e poll here found = rw (found, turn) refl

  watch-next :
      (handler : Bool) (poll : Poll) (polls : List Poll) (w w' : Watch)
      → ltb config.cycles w.cycle_number ≡ false
      → leb config.overall_timeout poll.tested ≡ false
      → turn config identity poll (find_usb_devices poll.candidates config.vid config.pid) w
        ≡ next w'
      → watch config identity handler false (poll ∷ polls) w
        ≡ watch config identity handler false polls w'
  unfolding watch
  watch-next handler poll polls w w' more early t = rw (more, early, t, watch) refl

  pub watch-Completes :
      (handler : Bool) (left : ℕ) (present : Bool) (since n : ℕ) (e : Evidence) (polls : List Poll)
      → config.cycles + 1 ≡ n + left
      → IsSchedule left present since polls
      → Completes (watch config identity handler false polls (watching present since n e))
  unfolding watch finish
  watch-Completes handler zero present since n e [] h s =
      let over : ltb config.cycles n ≡ true = ground arith in
      (finish handler false e, rw (over, watch) refl, refl)
  watch-Completes handler zero present since n e (poll ∷ polls) h s =
      let over : ltb config.cycles n ≡ true = ground arith in
      (finish handler false e, rw (over, watch) refl, refl)
  watch-Completes handler (suc left) present since n e [] h s = elim s [ ]
  watch-Completes handler (suc left) true since n e (poll ∷ polls) h s =
      let more : ltb config.cycles n ≡ false = ground arith in
      let early : leb config.overall_timeout poll.tested ≡ false = ground (arith, s.0) in
      elim s.1 [
        | inl (here, found, later) ↦
            let w = watching true since n e in
            subst Completes
              (sym (
                watch-next handler poll polls w w more early
                  (turn-stays since n e poll here found)))
              (watch-Completes handler (suc left) true since n e polls h later)
        | inr (found, later) ↦
            let w = watching true since n e in
            let w' = watching false poll.now n e in
            subst Completes
              (sym
                (watch-next handler poll polls w w' more early (turn-leaves since n e poll found)))
              (watch-Completes handler (suc left) false poll.now n e polls h later)
      ]
  watch-Completes handler (suc left) false since n e (poll ∷ polls) h s =
      let more : ltb config.cycles n ≡ false = ground arith in
      let early : leb config.overall_timeout poll.tested ≡ false = ground (arith, s.0) in
      elim s.1 [
        | inl (found, later) ↦
            let w = watching false since n e in
            subst Completes
              (sym (watch-next handler poll polls w w more early (turn-away since n e poll found)))
              (watch-Completes handler (suc left) false since n e polls h later)
        | inr (back, later) ↦
            let t = turn-IsReturn since n e poll back in
            subst Completes
              (sym (
                watch-next handler poll polls (watching false since n e)
                  (watching true since (n + 1) t.0) more early t.1))
              (watch-Completes handler left true since (n + 1) t.0 polls (omega arith) later)
      ]
