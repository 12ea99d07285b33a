-- ===== src/Hotplug/Ends.antt =====
-- The ends of a run of the hot-plug collector (scripts/phase3/collect_usb_hotplug.py,
-- `collect`).
use hpm5321_can_analyzer.Common.{not, true, Option, some, if◌then◌else◌}
use hpm5321_can_analyzer.Common.Int.{pos, eqb_ℤ}
use hpm5321_can_analyzer.Hotplug.Device.{Identity}
use hpm5321_can_analyzer.Hotplug.Smoke.{Smoke}
use hpm5321_can_analyzer.Hotplug.Collect.{
  Config, Evidence, Outcome, Failure, watch, give_up, Setup, no_evidence,
}

abbrev opened : Identity → Evidence
opened identity = record no_evidence { device = some identity }

abbrev smoked : Identity → Smoke → Evidence
smoked identity smoke = record (opened identity) { initial_smoke = some smoke }

abbrev start_with : Config → Setup → Identity → Smoke → Option Outcome
start_with config setup identity smoke =
    let e = smoked identity smoke in
    if not (eqb_ℤ smoke.exit_code (pos 0))
    then some (give_up setup.handler_write_fails Failure.initial_smoke_failed e)
    else if setup.write_fails
    then some (give_up setup.handler_write_fails Failure.os_error e)
    else watch config identity setup.handler_write_fails setup.final_write_fails setup.polls
        (record { present = true; disconnected_at = 0; cycle_number = 1; evidence = e })
