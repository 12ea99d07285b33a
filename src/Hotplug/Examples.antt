-- ===== src/Hotplug/Examples.antt =====
-- A run of the hot-plug collector with one cycle: the theorems at it, and tests.
use text.Mathlib.Text.{◌==◌ as str_eq}
use hpm5321_can_analyzer.Common.{
  ℕ, ◌≡◌, refl, true, false, Option, none, some, List, [], ◌∷◌, String, ◌+◌, arith, inl, inr,
  if◌then◌else◌,
}
use hpm5321_can_analyzer.Common.Int.{pos}
use hpm5321_can_analyzer.Common.Text.{codes, strip_left, strip, int_strip_left, int_of_text}
use hpm5321_can_analyzer.Hotplug.Device.{
  Candidate, read_text, find_usb_devices, usb_device_node, Identity, usb_identity, identity_eq,
}
use hpm5321_can_analyzer.Hotplug.Smoke.{Attempt, Smoke, returned, round_us, run_smoke_with_retry}
use hpm5321_can_analyzer.Hotplug.Retry.{IsResult, smoke-IsResult}
use hpm5321_can_analyzer.Hotplug.Collect.{
  Config, Outcome, Poll, Setup, cycle_of, close_cycle, reconnect, turn, watch, finish, collect,
  wait_for_device, qualify_device, start_cycles, node_readable, node_writable, pass, qualified,
}
use hpm5321_can_analyzer.Hotplug.GoodCycles.{Completes, IsSchedule, IsClean}
use hpm5321_can_analyzer.Hotplug.Schedule.{IsReady, collect-Completes}

program : Unit {0}
unfolding strip_left strip int_strip_left int_of_text read_text find_usb_devices usb_device_node
    usb_identity identity_eq round_us run_smoke_with_retry cycle_of close_cycle reconnect turn watch
    finish collect wait_for_device qualify_device start_cycles node_readable node_writable
program = tt

abbrev files : String → Option (List ℕ)
files name =
    if str_eq name "idVendor"
    then some (codes "34B7")
    else if str_eq name "idProduct"
    then some (codes "1236")
    else if str_eq name "serial"
    then some (codes "S1 ")
    else if str_eq name "speed"
    then some (codes "480")
    else if str_eq name "busnum"
    then some (codes "1")
    else if str_eq name "devnum"
    then some (codes "5")
    else none

abbrev analyzer : Candidate
analyzer = record { name = codes "1-2"; file = files; readable = true; writable = true }

-- Another device, without files.
abbrev hub : Candidate
hub = record { name = codes "usb1"; file = λ name. none; readable = true; writable = false }

abbrev config : Config
config = record {
  vid = codes "34b7";
  pid = codes "1236";
  cycles = 1;
  minimum_disconnect_ms = 250;
  overall_timeout = 3600000000000;
  recovery_timeout = 15000000000;
}

abbrev failing : Attempt
failing = record { exit_code = some (pos 1); ended = 2600000000 }

abbrev clean : Attempt
clean = record { exit_code = some (pos 0); ended = 2700001500 }

abbrev unplugged : Poll
unplugged = record {
  tested = 1000000000;
  candidates = hub ∷ [];
  now = 1000000001;
  smoke_started = 0;
  attempts = [];
  ready_candidates = [];
  write_fails = false;
}

abbrev back : Poll
back = record {
  tested = 2500000000;
  candidates = hub ∷ analyzer ∷ [];
  now = 2500000001;
  smoke_started = 2500000002;
  attempts = failing ∷ clean ∷ [];
  ready_candidates = analyzer ∷ [];
  write_fails = false;
}

abbrev setup : Setup
setup = record {
  executable = true;
  manifest_verified = true;
  waits =
      record { tested = 0; candidates = [] }
      ∷ record { tested = 1; candidates = analyzer ∷ [] }
      ∷ [];
  smoke_started = 2;
  attempts = clean ∷ [];
  write_fails = false;
  polls = unplugged ∷ back ∷ [];
  final_write_fails = false;
  handler_write_fails = false;
}

abbrev identity : Identity
identity = record {
  topology_path = codes "1-2";
  manufacturer = [];
  product = [];
  serial = codes "S1";
  speed_mbps = codes "480";
}

abbrev recovered : Smoke
recovered = record {
  exit_code = pos 0;
  attempt_count = 2;
  attempts = pos 1 ∷ pos 0 ∷ [];
  recovery_us = 200001;
}

back-recovers :
    run_smoke_with_retry 2500000002 15000000000 (failing ∷ clean ∷ []) [] ≡ returned recovered
unfolding program
back-recovers = refl

smoke-IsResult_example : IsResult (2500000002 + 15000000000) 0 (failing ∷ clean ∷ []) recovered
smoke-IsResult_example =
    smoke-IsResult 2500000002 15000000000 (failing ∷ clean ∷ []) recovered back-recovers

abbrev passed : Outcome
passed = record {
  evidence = record {
    status = pass;
    verdict = qualified;
    device = some identity;
    initial_smoke = some (record {
      exit_code = pos 0;
      attempt_count = 1;
      attempts = pos 0 ∷ [];
      recovery_us = 2700001;
    });
    completed_cycles = 1;
    cycles =
        record {
          number = 1;
          disconnect_us = 1500000;
          topology_path = codes "1-2";
          device = some identity;
          device_node = some (pos 1, pos 5);
          readable = true;
          writable = true;
          smoke = recovered;
        }
        ∷ [];
    failure = none;
  };
  exit_status = some 0;
}

clean-IsClean : IsClean 2 15000000000 (clean ∷ [])
clean-IsClean = record {
  before = [];
  last = clean;
  after = [];
  split = refl;
  retried = tt;
  exit_code = refl;
}

back-IsClean : IsClean 2500000002 15000000000 (failing ∷ clean ∷ [])
back-IsClean = record {
  before = failing ∷ [];
  last = clean;
  after = [];
  split = refl;
  retried = (record { code = pos 1; has_code = refl; failed = λ h. cc; in_time = omega arith }, tt);
  exit_code = refl;
}

setup-IsReady : IsReady config setup analyzer
unfolding program
setup-IsReady = record {
  executable = refl;
  manifest = refl;
  connects = (omega arith, inr (refl, (omega arith, inl refl)));
  serial = refl;
  readable = refl;
  writable = refl;
  clean = clean-IsClean;
  written = refl;
  completed = refl;
}

polls-IsSchedule : IsSchedule config (usb_identity analyzer) 1 true 0 (unplugged ∷ back ∷ [])
unfolding program
polls-IsSchedule = (
  omega arith,
  inr (
    refl,
    (
      omega arith,
      inr (
        record {
          here = analyzer;
          found = refl;
          pause = omega arith;
          clean = back-IsClean;
          ready = analyzer;
          ready_found = refl;
          same = refl;
          readable = refl;
          writable = refl;
          written = refl;
        },
        tt,
      ),
    ),
  ),
)

collect-Completes_example : Completes (collect config setup)
collect-Completes_example = collect-Completes config setup analyzer setup-IsReady polls-IsSchedule
