-- ===== src/Hotplug/Schedule.antt =====
-- Good starts, and whole runs of good cycles (scripts/phase3/collect_usb_hotplug.py,
-- `collect`).
use hpm5321_can_analyzer.Common.{
  ◌<◌, ◌≡◌, refl, ap, ◌⊎◌, inl, inr, true, false, some, List, [], ◌∷◌, arith, leb, is_empty,
}
use hpm5321_can_analyzer.Common.Int.{pos, eqb_ℤ}
use hpm5321_can_analyzer.Hotplug.Device.{Candidate, find_usb_devices, usb_identity}
use hpm5321_can_analyzer.Hotplug.Collect.{
  Config, Wait, Setup, collect, no_evidence, connected, wait_for_device, qualify_device,
  start_cycles, node_readable, node_writable,
}
use hpm5321_can_analyzer.Hotplug.GoodCycles.{
  IsSchedule, watch-Completes, IsClean, IsClean-returns, Completes,
}

-- The first connection: polls without the device, and then one with it alone, in time.
abbrev pub Connects : Config → Candidate → List Wait → Type 0
Connects config device [] = ⊥
Connects config device (wait ∷ waits) =
    (wait.tested < config.overall_timeout)
    × ((find_usb_devices wait.candidates config.vid config.pid ≡ device ∷ [])
        ⊎ ((find_usb_devices wait.candidates config.vid config.pid ≡ [])
            × Connects config device waits))

wait_for_device-Connects :
    (config : Config) (device : Candidate) (waits : List Wait)
    → Connects config device waits
    → wait_for_device config waits ≡ connected device
unfolding wait_for_device
wait_for_device-Connects config device [] c = elim c [ ]
wait_for_device-Connects config device (wait ∷ waits) c =
    let early : leb config.overall_timeout wait.tested ≡ false = ground (arith, c.0) in
    elim c.1 [
      | inl found ↦ rw (early, found, wait_for_device) refl
      | inr (none_yet, later) ↦
          rw (early, none_yet, wait_for_device) (wait_for_device-Connects config device waits later)
    ]

-- What a good start needs.
pub record IsReady (config : Config) (setup : Setup) (device : Candidate) : Type 0 where
  pub executable : setup.executable ≡ true
  pub manifest : setup.manifest_verified ≡ true
  pub connects : Connects config device setup.waits
  pub serial : is_empty (usb_identity device).serial ≡ false
  pub readable : node_readable device ≡ true
  pub writable : node_writable device ≡ true
  pub clean : IsClean setup.smoke_started config.recovery_timeout setup.attempts
  pub written : setup.write_fails ≡ false
  pub completed : setup.final_write_fails ≡ false

-- After a good start, every schedule of as many good cycles as are asked for, with any number of
-- polls between the changes and all of them before the deadline, makes the run end with exit
-- status 0.
pub collect-Completes :
    (config : Config) (setup : Setup) (device : Candidate)
    → IsReady config setup device
    → IsSchedule config (usb_identity device) config.cycles true 0 setup.polls
    → Completes (collect config setup)
unfolding collect qualify_device start_cycles
collect-Completes config setup device r s =
    let smoke =
      IsClean-returns setup.smoke_started config.recovery_timeout setup.attempts r.clean in
    let connects = wait_for_device-Connects config device setup.waits r.connects in
    let clean = ap (λ c. eqb_ℤ c (pos 0)) smoke.2 in
    let run =
      watch-Completes config (usb_identity device) setup.handler_write_fails config.cycles true 0 1
        (record no_evidence { device = some (usb_identity device); initial_smoke = some smoke.0 })
        setup.polls (omega arith) s in
    rw
      (
        r.executable, r.manifest, connects, r.serial, r.readable, r.writable, start_cycles, smoke.1,
        clean, r.written, r.completed,
      )
      run
