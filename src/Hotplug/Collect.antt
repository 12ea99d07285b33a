-- ===== src/Hotplug/Collect.antt =====
-- The collecting loop and its evidence (scripts/phase3/collect_usb_hotplug.py, `collect`). What the
-- script finds is a list of polls; times are whole nanoseconds since the deadline was set.
use hpm5321_can_analyzer.Common.{
  ℕ, ◌+◌, ◌-◌, ◌*◌, Bool, true, false, not, ◌&&◌, Option, none, some, List, [], ◌∷◌, ◌++◌, is_empty,
  ltb, leb, if◌then◌else◌,
}
use hpm5321_can_analyzer.Common.Int.{ℤ, pos, eqb_ℤ}
use hpm5321_can_analyzer.Hotplug.Device.{
  Candidate, find_usb_devices, usb_device_node, Identity, usb_identity, identity_eq,
}
use hpm5321_can_analyzer.Hotplug.Smoke.{
  Attempt, Smoke, returned, not_started, still_running, round_us, run_smoke_with_retry,
}

pub data Status : Type 0 where
  running pass fail : Status

-- The verdict of the evidence boundary.
pub data Boundary : Type 0 where
  pending qualified not_qualified : Boundary

-- The messages of the RuntimeError; `os_error` stands for an OSError.
pub data Failure : Type 0 where
  not_executable unverified_manifest several_devices never_connected no_serial node_denied
        initial_smoke_failed overall_timeout os_error :
      Failure
  too_short identity_changed cycle_node_denied cycle_smoke_failed : (cycle : ℕ) → Failure

-- The arguments that the loop reads.
pub record Config : Type 0 where
  pub vid : List ℕ
  pub pid : List ℕ
  pub cycles : ℕ
  pub minimum_disconnect_ms : ℕ
  pub overall_timeout : ℕ
  pub recovery_timeout : ℕ

-- A cycle of the evidence, without its wall-clock times; `disconnect_ms` is in microseconds.
pub record Cycle : Type 0 where
  pub number : ℕ
  pub disconnect_us : ℕ
  pub topology_path : List ℕ
  pub device : Option Identity
  pub device_node : Option (ℤ × ℤ)
  pub readable : Bool
  pub writable : Bool
  pub smoke : Smoke

-- The fields of the evidence that the code changes.
pub record Evidence : Type 0 where
  pub status : Status
  pub verdict : Boundary
  pub device : Option Identity
  pub initial_smoke : Option Smoke
  pub completed_cycles : ℕ
  pub cycles : List Cycle
  pub failure : Option Failure

abbrev pub no_evidence : Evidence
no_evidence = record {
  status = running;
  verdict = pending;
  device = none;
  initial_smoke = none;
  completed_cycles = 0;
  cycles = [];
  failure = none;
}

-- The evidence and the exit status; `none` is the OSError of the handler's own write, which leaves
-- `collect`.
pub record Outcome : Type 0 where
  pub evidence : Evidence
  pub exit_status : Option ℕ

-- `except (OSError, RuntimeError)`, with whether the handler's write fails.
abbrev pub give_up : (handler_fails : Bool) → Failure → Evidence → Outcome
give_up handler_fails reason e = record {
  evidence = record e { status = fail; verdict = not_qualified; failure = some reason };
  exit_status = if handler_fails then none else some 1;
}

-- The statements after the loop, with whether the evidence can be written.
unfoldable pub finish : (handler_fails write_fails : Bool) → Evidence → Outcome
finish handler_fails write_fails e =
    if write_fails
    then give_up handler_fails os_error e
    else record { evidence = record e { status = pass; verdict = qualified }; exit_status = some 0 }

-- A turn of the loop that waits for the first connection.
pub record Wait : Type 0 where
  pub tested : ℕ
  pub candidates : List Candidate

pub data Connection : Type 0 where
  connected : Candidate → Connection
  unconnected : Failure → Connection
  waiting : Connection

unfoldable pub wait_for_device : Config → List Wait → Connection
wait_for_device config [] = waiting
wait_for_device config (wait ∷ waits) = elim (leb config.overall_timeout wait.tested) [
  | true ↦ unconnected never_connected
  | false ↦ elim (find_usb_devices wait.candidates config.vid config.pid) [
    | [] ↦ wait_for_device config waits
    | device ∷ others ↦ if is_empty others then connected device else unconnected several_devices
  ]
]

-- A turn of the loop over the cycles: the clock at its test, the directory, the clock after it was
-- read, the recovery smoke, the directory after the smoke, and whether the evidence can be written.
pub record Poll : Type 0 where
  pub tested : ℕ
  pub candidates : List Candidate
  pub now : ℕ
  pub smoke_started : ℕ
  pub attempts : List Attempt
  pub ready_candidates : List Candidate
  pub write_fails : Bool

-- The variables of the loop; `present` says whether `state` is "present".
pub record Watch : Type 0 where
  pub present : Bool
  pub disconnected_at : ℕ
  pub cycle_number : ℕ
  pub evidence : Evidence

-- How a turn ends.
pub data Turn : Type 0 where
  next : Watch → Turn
  failed : Failure → Evidence → Turn
  unfinished : Turn

-- `ready_devices[0] if len(ready_devices) == 1 else None`
abbrev pub only : List Candidate → Option Candidate
only [] = none
only (device ∷ []) = some device
only (device ∷ other ∷ others) = none

abbrev is_some {ℓ} : {A : Type ℓ} → Option A → Bool
is_some none = false
is_some (some a) = true

unfoldable pub node_readable : Candidate → Bool
node_readable device = is_some (usb_device_node device) && device.readable

unfoldable pub node_writable : Candidate → Bool
node_writable device = is_some (usb_device_node device) && device.writable

-- The record of a cycle; `here` is the device that the poll found.
unfoldable pub cycle_of :
    (number absent : ℕ) (here : Candidate) (ready : Option Candidate) → Smoke → Cycle
unfolding node_readable node_writable round_us
cycle_of number absent here none smoke = record {
  number = number;
  disconnect_us = round_us absent;
  topology_path = here.name;
  device = none;
  device_node = none;
  readable = false;
  writable = false;
  smoke = smoke;
}
cycle_of number absent here (some ready) smoke = record {
  number = number;
  disconnect_us = round_us absent;
  topology_path = ready.name;
  device = some (usb_identity ready);
  device_node = usb_device_node ready;
  readable = node_readable ready;
  writable = node_writable ready;
  smoke = smoke;
}

-- `ready_identity == identity`
abbrev pub is_identity : Option Identity → Identity → Bool
is_identity none identity = false
is_identity (some ready) identity = identity_eq ready identity

-- The statements of a cycle after its record is made.
unfoldable pub close_cycle : Identity → (write_fails : Bool) → Cycle → Watch → Turn
close_cycle identity write_fails cycle w =
    let n = w.cycle_number in
    let e = record w.evidence { cycles = w.evidence.cycles ++ cycle ∷ [] } in
    let e' = record e { completed_cycles = n } in
    if not (is_identity cycle.device identity)
    then failed (identity_changed n) e
    else if not (cycle.readable && cycle.writable)
    then failed (cycle_node_denied n) e
    else if not (eqb_ℤ cycle.smoke.exit_code (pos 0))
    then failed (cycle_smoke_failed n) e
    else if write_fails
    then failed os_error e'
    else next (record w { present = true; cycle_number = n + 1; evidence = e' })

-- The branch for a device that is back.
unfoldable pub reconnect : Config → Identity → Poll → (here : Candidate) → Watch → Turn
reconnect config identity poll here w =
    let absent = poll.now - w.disconnected_at in
    let ready = only (find_usb_devices poll.ready_candidates config.vid config.pid) in
    if ltb absent (config.minimum_disconnect_ms * 1000000)
    then failed (too_short w.cycle_number) w.evidence
    else elim (run_smoke_with_retry poll.smoke_started config.recovery_timeout poll.attempts []) [
      | returned smoke ↦
          close_cycle identity poll.write_fails (cycle_of w.cycle_number absent here ready smoke) w
      | not_started ↦ failed os_error w.evidence
      | still_running ↦ unfinished
    ]

-- The loop's body, once the devices are found.
unfoldable pub turn : Config → Identity → Poll → (devices : List Candidate) → Watch → Turn
turn config identity poll [] w =
    if w.present then next (record w { present = false; disconnected_at = poll.now }) else next w
turn config identity poll (device ∷ []) w =
    if w.present then next w else reconnect config identity poll device w
turn config identity poll (device ∷ other ∷ others) w = failed several_devices w.evidence

-- The loop over the cycles and what comes after it; `none` means that the polls are over and it
-- still runs.
unfoldable pub watch :
    Config
    → Identity
    → (handler_fails final_write_fails : Bool) → List Poll
    → Watch
    → Option Outcome
watch config identity handler final [] w =
    if ltb config.cycles w.cycle_number then some (finish handler final w.evidence) else none
watch config identity handler final (poll ∷ polls) w = elim (ltb config.cycles w.cycle_number) [
  | true ↦ some (finish handler final w.evidence)
  | false ↦ elim (leb config.overall_timeout poll.tested) [
    | true ↦ some (give_up handler overall_timeout w.evidence)
    | false ↦
        elim (turn config identity poll (find_usb_devices poll.candidates config.vid config.pid)
          w) [
            | next w' ↦ watch config identity handler final polls w'
            | failed reason e ↦ some (give_up handler reason e)
            | unfinished ↦ none
          ]
  ]
]

-- What is found before and around the loops.
pub record Setup : Type 0 where
  pub executable : Bool
  pub manifest_verified : Bool
  pub waits : List Wait
  pub smoke_started : ℕ
  pub attempts : List Attempt
  pub write_fails : Bool
  pub polls : List Poll
  pub final_write_fails : Bool
  pub handler_write_fails : Bool

-- From the initial smoke on.
unfoldable pub start_cycles : Config → Setup → Identity → Evidence → Option Outcome
start_cycles config setup identity e =
    elim (run_smoke_with_retry setup.smoke_started config.recovery_timeout setup.attempts []) [
      | not_started ↦ some (give_up setup.handler_write_fails os_error e)
      | still_running ↦ none
      | returned smoke ↦
          let e' = record e { initial_smoke = some smoke } in
          if not (eqb_ℤ smoke.exit_code (pos 0))
          then some (give_up setup.handler_write_fails initial_smoke_failed e')
          else if setup.write_fails
          then some (give_up setup.handler_write_fails os_error e')
          else watch config identity setup.handler_write_fails setup.final_write_fails setup.polls
              (record { present = true; disconnected_at = 0; cycle_number = 1; evidence = e' })
    ]

-- From the first connection on.
unfoldable pub qualify_device : Config → Setup → Candidate → Option Outcome
unfolding start_cycles
qualify_device config setup device =
    let identity = usb_identity device in
    let e = record no_evidence { device = some identity } in
    if is_empty identity.serial
    then some (give_up setup.handler_write_fails no_serial no_evidence)
    else if not (node_readable device && node_writable device)
    then some (give_up setup.handler_write_fails node_denied e)
    else start_cycles config setup identity e

unfoldable pub collect : Config → Setup → Option Outcome
unfolding wait_for_device qualify_device
collect config setup =
    if not setup.executable
    then some (give_up setup.handler_write_fails not_executable no_evidence)
    else if not setup.manifest_verified
    then some (give_up setup.handler_write_fails unverified_manifest no_evidence)
    else elim (wait_for_device config setup.waits) [
      | connected device ↦ qualify_device config setup device
      | unconnected reason ↦ some (give_up setup.handler_write_fails reason no_evidence)
      | waiting ↦ none
    ]
