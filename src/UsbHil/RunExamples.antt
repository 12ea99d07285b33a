-- ===== src/UsbHil/RunExamples.antt =====
-- A bench with a device that echoes: the theorems on the session and the runs at it, and tests.
use hpm5321_can_analyzer.Common.{
  ℕ, zero, suc, ◌+◌, ◌/◌, ◌%◌, ◌≡◌, refl, Bool, true, false, none, some, List, [], ◌∷◌, length,
  ◌==◌, if◌then◌else◌, arith,
}
use hpm5321_can_analyzer.Common.Int.{ℤ, pos, negsuc}
use hpm5321_can_analyzer.Common.Text.{codes, text_eq}
use hpm5321_can_analyzer.Hotplug.Device.{Candidate, read_text, find_usb_devices}
use hpm5321_can_analyzer.UsbHil.Descriptor.{set_endpoint, get_endpoint, walk, descriptor_endpoints}
use hpm5321_can_analyzer.UsbHil.FullSpeed.{
  ep_out, includes, endpoints_eq, has_sizes, is_qualifier, validate_fs_descriptor_set,
}
use hpm5321_can_analyzer.UsbHil.Session.{
  Bulk, Environment, UsbState, Outcome, returned, raised, cut_off, mismatch_at, transfer,
  terminate_hs_out_transfer, close_handle, open_until, open_with_retry, write, read, echo,
  endpoint_halted, read_descriptor, set_endpoint_halt, expect_endpoint_stall, clear_endpoint_halt,
  clear_both, reset_and_reopen, leave, with_session,
}
use hpm5321_can_analyzer.UsbHil.Matrix.{echo_random, echo_times, action}
use hpm5321_can_analyzer.UsbHil.RunMatrix.{
  Inputs, device_metadata, run_metadata, MatrixEvidence, matrix_started, with_boundaries,
  failed_case, after_case, run_cases, fail_matrix, pass_matrix, end_matrix, after_session,
  run_matrix,
}
use hpm5321_can_analyzer.UsbHil.Loopback.{
  LoopEvidence, loop_started, LoopArgs, minimums_met, report, after_report, after_echo, loop,
  fail_loop, pass_loop, end_loop, after_loop, run_loopback,
}
use hpm5321_can_analyzer.UsbHil.Fallback.{
  FsEvidence, fs_started, validate_descriptors, write_then, after_step, echo_loop, fs_body, fail_fs,
  pass_fs, after_fs, run_fs_fallback,
}
use hpm5321_can_analyzer.UsbHil.BulkMain.{
  compared, bulk_turn, after_turn, bulk_loop, timed, bulk_body, leave_bulk, bulk_main,
}
use hpm5321_can_analyzer.UsbHil.BulkFinish.{bulk_main-Finishes}
use hpm5321_can_analyzer.UsbHil.Returns.{IsEchoed, echo-IsEchoed}
use hpm5321_can_analyzer.UsbHil.FullSpeedRun.{IsFsRun, run_fs_fallback-IsFsRun}
use hpm5321_can_analyzer.UsbHil.MatrixRun.{IsMatrixRun, run_matrix-IsMatrixRun}
use hpm5321_can_analyzer.UsbHil.MatrixErrors.{IsAllowed, run_matrix-IsAllowed}
use hpm5321_can_analyzer.UsbHil.LoopRun.{IsLoopRun, run_loopback-IsLoopRun}
use hpm5321_can_analyzer.UsbHil.Finishes.{is_cut_off, Clock}
use hpm5321_can_analyzer.UsbHil.RunsFinish.{run_matrix-Finishes, run_fs_fallback-Finishes}

program : Unit {0}
unfolding set_endpoint get_endpoint walk descriptor_endpoints includes endpoints_eq has_sizes
    is_qualifier validate_fs_descriptor_set read_text find_usb_devices mismatch_at transfer
    terminate_hs_out_transfer close_handle open_until open_with_retry write read echo
    endpoint_halted read_descriptor set_endpoint_halt expect_endpoint_stall clear_endpoint_halt
    clear_both reset_and_reopen leave with_session echo_random echo_times action device_metadata
    run_metadata with_boundaries failed_case after_case run_cases fail_matrix pass_matrix end_matrix
    after_session run_matrix minimums_met report after_report after_echo loop fail_loop pass_loop
    end_loop after_loop run_loopback validate_descriptors write_then after_step echo_loop fs_body
    fail_fs pass_fs after_fs run_fs_fallback compared bulk_turn after_turn bulk_loop timed bulk_body
    leave_bulk bulk_main
program = tt

-- The device keeps the last packet and the halts; the clock counts nanoseconds.
record Bench : Type 0 where
  packet : List ℕ
  halted_out : Bool
  halted_in : Bool
  time : ℕ

abbrev is_halted : ℕ → Bench → Bool
is_halted endpoint b = if endpoint == ep_out then b.halted_out else b.halted_in

abbrev with_halt : ℕ → Bool → Bench → Bench
with_halt endpoint h b =
    if endpoint == ep_out then record b { halted_out = h } else record b { halted_in = h }

abbrev received : List ℕ → Bench → Bench
received [] b = b
received (x ∷ xs) b = record b { packet = x ∷ xs }

abbrev pattern_of : ℕ → List ℕ
pattern_of zero = []
pattern_of (suc n) = n % 256 ∷ pattern_of n

abbrev configuration_of : (kind low high : ℕ) → List ℕ
configuration_of kind low high =
    9 ∷ kind ∷ 32 ∷ 0 ∷ 1 ∷ 1 ∷ 0 ∷ 0x80 ∷ 50 ∷ 9 ∷ 4 ∷ 0 ∷ 0 ∷ 2 ∷ 0xFF ∷ 0 ∷ 0 ∷ 0 ∷ 7 ∷ 5 ∷ 0x81
    ∷ 2 ∷ low ∷ high ∷ 0 ∷ 7 ∷ 5 ∷ 0x01 ∷ 2 ∷ low ∷ high ∷ 0 ∷ []

abbrev descriptor_of : ℕ → List ℕ
descriptor_of kind =
    if kind == 6
    then 10 ∷ 6 ∷ 0 ∷ 2 ∷ 0 ∷ 0 ∷ 0 ∷ 64 ∷ 1 ∷ 0 ∷ []
    else if kind == 2
    then configuration_of 2 64 0
    else configuration_of 7 0 2

abbrev bulk_at : (handle endpoint : ℕ) → List ℕ → Bench → Bulk × Bench
bulk_at handle endpoint buffer b =
    if is_halted endpoint b
    then (record { code = negsuc 8; transferred = pos 0; buffer = buffer }, b)
    else if endpoint == ep_out
    then (
      record { code = pos 0; transferred = pos (length buffer); buffer = buffer },
      received buffer b,
    )
    else (record { code = pos 0; transferred = pos (length buffer); buffer = b.packet }, b)

abbrev control_at :
    (handle request_type request value index : ℕ) → List ℕ → Bench → (ℤ × List ℕ) × Bench
control_at handle request_type request value index buffer b =
    if request_type == 0x82
    then ((pos 2, (if is_halted index b then 1 else 0) ∷ 0 ∷ []), b)
    else if request_type == 0x02
    then ((pos 0, []), with_halt index true b)
    else ((pos (length (descriptor_of (value / 256))), descriptor_of (value / 256)), b)

abbrev bench : Environment Bench
bench = record {
  init = λ b. (pos 0, b);
  exit = λ b. b;
  open_device = λ b. (some 1, b);
  claim_interface = λ h b. (pos 0, b);
  release_interface = λ h b. b;
  close_device = λ h b. b;
  bulk_transfer = bulk_at;
  control_transfer = control_at;
  clear_halt = λ h endpoint b. (pos 0, with_halt endpoint false b);
  reset_device = λ h b. (pos 0, record b { packet = [] });
  monotonic = λ b. (b.time, record b { time = b.time + 1 });
  sleep = λ d b. record b { time = b.time + d };
  randbytes = λ n b. (pattern_of n, b);
  write_evidence = λ b. (true, b);
}

abbrev at_rest : UsbState Bench
at_rest = record {
  world = record { packet = []; halted_out = false; halted_in = false; time = 0 };
  handle = none;
}

abbrev opened : UsbState Bench
opened = record at_rest { handle = some 1 }

abbrev evidence_of : {E : Type 0} → E → Outcome (ℕ × E) → E
evidence_of e (returned (k, e')) = e'
evidence_of e (raised error) = e
evidence_of e cut_off = e

abbrev device : Candidate
device = record {
  name = codes "1-1";
  file = λ name. some (
      if text_eq (codes name) (codes "idVendor")
      then codes "34b7"
      else if text_eq (codes name) (codes "idProduct")
      then codes "1236"
      else codes "12");
  readable = true;
  writable = true;
}

abbrev inputs : Inputs
inputs = record { manifest = some true; candidates = device ∷ [] }

echoes : echo bench (1 ∷ 2 ∷ 3 ∷ []) opened ≡ (returned tt, (echo bench (1 ∷ 2 ∷ 3 ∷ []) opened).1)
unfolding program
echoes = refl

echo-IsEchoed_example :
    IsEchoed bench (1 ∷ 2 ∷ 3 ∷ []) opened (echo bench (1 ∷ 2 ∷ 3 ∷ []) opened).1
echo-IsEchoed_example =
    echo-IsEchoed bench (1 ∷ 2 ∷ 3 ∷ []) opened (echo bench (1 ∷ 2 ∷ 3 ∷ []) opened).1 echoes

abbrev fs_run : Outcome (ℕ × FsEvidence) × UsbState Bench
fs_run = run_fs_fallback bench 3 2 100000000 inputs at_rest

fs_run-passes : fs_run ≡ (returned (0, evidence_of (fs_started 3) fs_run.0), fs_run.1)
unfolding program
fs_run-passes = refl

run_fs_fallback-IsFsRun_example :
    IsFsRun bench 3 2 100000000 inputs at_rest (evidence_of (fs_started 3) fs_run.0)
run_fs_fallback-IsFsRun_example =
    run_fs_fallback-IsFsRun bench 3 2 100000000 inputs (evidence_of (fs_started 3) fs_run.0) at_rest
      fs_run.1 fs_run-passes

abbrev args : LoopArgs
args = record { chunk = 2; min_bytes = 3; min_time = 4; report_time = 3 }

abbrev loop_run : Outcome (ℕ × LoopEvidence) × UsbState Bench
loop_run = run_loopback bench args 10 2 100000000 inputs at_rest

loop_run-passes : loop_run ≡ (returned (0, evidence_of loop_started loop_run.0), loop_run.1)
unfolding program
loop_run-passes = refl

run_loopback-IsLoopRun_example :
    IsLoopRun bench args 2 100000000 inputs at_rest (evidence_of loop_started loop_run.0)
run_loopback-IsLoopRun_example =
    run_loopback-IsLoopRun bench args 10 2 100000000 inputs (evidence_of loop_started loop_run.0)
      at_rest loop_run.1 loop_run-passes

abbrev matrix_run : Outcome (ℕ × MatrixEvidence) × UsbState Bench
matrix_run = run_matrix bench 2 100000000 inputs at_rest

matrix_run-passes :
    matrix_run ≡ (returned (0, evidence_of matrix_started matrix_run.0), matrix_run.1)
unfolding program
matrix_run-passes = refl

run_matrix-IsMatrixRun_example :
    IsMatrixRun bench 2 100000000 inputs (evidence_of matrix_started matrix_run.0)
run_matrix-IsMatrixRun_example =
    run_matrix-IsMatrixRun bench 2 100000000 inputs (evidence_of matrix_started matrix_run.0)
      at_rest matrix_run.1 matrix_run-passes

bench-Clock : Clock bench
bench-Clock = record {
  now = λ b. b.time;
  reads = λ b. refl;
  monotonic = λ b. omega arith;
  opens = λ b. omega arith;
  claims = λ h b. omega arith;
  closes = λ h b. omega arith;
  sleeps = λ d b. omega arith;
}

run_matrix-Finishes_example : is_cut_off (run_matrix bench 2 100000000 inputs at_rest).0 ≡ false
run_matrix-Finishes_example =
    run_matrix-Finishes bench 2 100000000 bench-Clock (omega arith) inputs at_rest

run_fs_fallback-Finishes_example :
    is_cut_off (run_fs_fallback bench 5000 2 100000000 inputs at_rest).0 ≡ false
run_fs_fallback-Finishes_example =
    run_fs_fallback-Finishes bench bench-Clock 5000 2 100000000 (omega arith) inputs at_rest

run_matrix-IsAllowed_example :
    IsAllowed
      (run_matrix bench 2 100000000 (record { manifest = some true; candidates = [] }) at_rest).0
run_matrix-IsAllowed_example =
    run_matrix-IsAllowed bench 2 100000000 (record { manifest = some true; candidates = [] })
      at_rest

abbrev bulk_run : Outcome ℤ × UsbState Bench
bulk_run = bulk_main bench 2 5 at_rest

bulk_main-Finishes_example : is_cut_off (bulk_main bench 2 5 at_rest).0 ≡ false
bulk_main-Finishes_example = bulk_main-Finishes bench 2 5 at_rest (omega arith)
