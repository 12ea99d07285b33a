-- ===== src/Lib.antt =====
-- The host-side verification scripts of the CAN analyzer: the Python tools under scripts/ that
-- judge whether recorded hardware evidence supports a claim.
--
-- EventLoss (with children) models scripts/phase3/reconcile_p3b_backpressure.py function by
-- function: Ranges has next_nonzero, previous_nonzero, split_nonzero_range, merge_ranges and
-- range_count; Observed has the loop of observed_missing_ranges, Declared that of
-- declared_loss_ranges, and Reconcile has reconcile and the exit status of main.
--
-- Heartbeat (with children) models scripts/phase2/collect_heartbeat.py: Sample has SAMPLE_PATTERN
-- and parse_sample, Check has validate_sample, Collect has the loop of collect with
-- validate_expected_sha256 and the evidence it builds, and Printed the record that _sample_target
-- tells GDB to print. The sampler, the clock and the operator are a list of rounds, so the loop is
-- a structural recursion; a list that ends before the loop does gives none. Times are whole
-- nanoseconds, and a recorded time is whole milliseconds, rounded half to even. Whether a write of
-- the evidence fails is a flag, of each round for the loop, of its last round for the write after
-- it and the handlers'; Printed has the text of the printf format, apart from the pattern. The GDB
-- server's process, main's argument parser and an interrupt before the clock is started are not
-- modelled.
--
-- Hotplug (with children) models scripts/phase3/collect_usb_hotplug.py: Device has
-- find_usb_devices, usb_device_node and usb_identity, Smoke has _run_smoke_with_retry, and Collect
-- has collect, with its loop over the cycles as a state machine. A poll of that loop holds what
-- the script finds: the clock, the directory, the attempts of the smoke program and whether the
-- evidence can be written. Both loops recur on the list of polls, and a list that ends before the
-- loop does gives none. Where the handler's own write of the evidence raises, the run has no exit
-- status. The evidence is kept without its wall-clock times and texts, and recorded milliseconds
-- with three decimals are whole microseconds.
--
-- UsbHil (with children) models scripts/phase3/run_usb_hil.py and
-- scripts/phase0/usb_bulk_loopback.py, whose main is BulkMain, with BulkRun and BulkFinish about
-- it. Descriptor has _descriptor_endpoints, whose walk takes the bytes from its offset on, and as
-- much fuel as there are bytes, which is enough because an item takes at least two; FullSpeed has
-- validate_fs_descriptor_set, whose reads are a parameter there. Session has UsbSession as
-- functions on a state, the world of an environment and the open handle, that return, raise or are
-- cut off; the environment is a record of libusb's calls, the clock, the sleep, the random
-- generator and the write of the evidence file. Matrix has build_matrix_cases with the action of
-- each case; RunMatrix, Loopback and Fallback have run_matrix, run_loopback and run_fs_fallback
-- with their evidence as a record. The loop that opens the device runs for a number of rounds that
-- is a parameter, the long echo for a number of turns, and the echo at Full Speed for as many
-- turns as there are bytes, since each turn echoes a byte or more; a call whose rounds are over is
-- cut off, an outcome of its own that no handler catches. Times are nanoseconds. Returns,
-- Sessions, MatrixRun, MatrixErrors, LoopTurns, LoopRun, FullSpeedSteps and FullSpeedRun are about
-- results, Finishes, CasesFinish and RunsFinish about the cuts. Of the exceptions that a run does
-- not catch, StopIteration of the mismatch search and ZeroDivisionError of the throughput are
-- modelled.
--
-- MemoryBudget (with children) models scripts/env/check_memory_budget.py: LinkMap has parse_map,
-- with its two patterns read from left to right, and check; Budget says what it means that the
-- budget is kept. The lines of the map enter as they are split. The pattern's numbers are read
-- with the same functions as those of the heartbeat record.
--
-- Analyzer (with children) models scripts/phase3/reconcile_p3b_analyzer.py. Log has
-- parse_analyzer_log: the pattern of a line as a matcher over ASCII codes, the checks that
-- datetime.strptime makes of a date and a time, and nanoseconds since the epoch for UTC+08:00;
-- Frames has parse_frames and measurement_window over the rows of a CSV file; Reconcile has
-- reconcile with its tests as a list of Booleans with their errors, in the order of the code. A
-- call returns or raises: a line with the form of the log that is no date, and a row that lacks
-- only its payload, raise exceptions that the code does not catch; so do a summary or a table that
-- cannot be decoded, and a time that datetime.fromtimestamp, a parameter, does not take. The
-- floats' overflow from 10 ** 308 on is not modelled. The 0.5 percent test of the rates is on
-- exact fractions of whole nanoseconds, where the code has floats.
--
-- Common has the shared notions: Booleans and lists over the native numbers, Python's integers
-- (Common.Int), ASCII text with int(text) (Common.Text), exceptions and rows of csv.DictReader
-- (Common.Python) and the values of json.loads (Common.Json). Text is ASCII: int() of other digits
-- or white space is not modelled. A finite float is an exact binary fraction.
--
-- Files enter as parsed values: opening, decoding, CSV splitting and JSON parsing belong to the
-- Python library, and writing reports is plain output. A raised exception is a value of Result.

pub mod Common
pub mod EventLoss
pub mod Heartbeat
pub mod Hotplug
pub mod UsbHil
pub mod MemoryBudget
pub mod Analyzer
