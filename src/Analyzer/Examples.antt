-- ===== src/Analyzer/Examples.antt =====
-- A run of three frames: the theorem at it, and tests.
use hpm5321_can_analyzer.Common.{
  ◌≡◌, arith, refl, true, ◌&&◌, if◌then◌else◌, ◌↔◌, String, Option, none, some, List, [], ◌∷◌,
}
use hpm5321_can_analyzer.Common.Int.{ℤ, pos, leb_ℤ, ltb_ℤ}
use hpm5321_can_analyzer.Common.Text.{codes, strip, int_strip_left, int_of_text}
use hpm5321_can_analyzer.Common.Json.{
  Json, integer, object, Fields, field, end, get, get_or, eq_int,
}
use hpm5321_can_analyzer.Common.Python.{
  Result, ok, raised, value_error, attribute_error, Row, cell, int_of_cell, int_field,
}
use hpm5321_can_analyzer.Analyzer.Log.{
  invalid_line, tight, digits, literal, hex_run, payload_bytes, direction_of, match_stamp,
  match_line, record_of, parse_line, parse_lines, parse_analyzer_log,
}
use hpm5321_can_analyzer.Analyzer.Frames.{
  complete, expected, names_eq, frames_end, frame_of, parse_row, parse_rows, parse_frames, in_phase,
  marks, measurement_window,
}
use hpm5321_can_analyzer.Analyzer.Reconcile.{
  failures, filter, aligned_records, is_unordered, mismatches, nonzero_counters, span, rates_far,
  last_tests, tests, Report, judge, local_times, with_summary, Answer, refused, reported, RunDir,
  reconcile_with, reconcile, exit_status,
}
use hpm5321_can_analyzer.Analyzer.Raises.{HasBroken, parse_analyzer_log-raises_iff}
use hpm5321_can_analyzer.Analyzer.PayloadText.{payload_text, payload_bytes-payload_text}
use hpm5321_can_analyzer.Analyzer.Verdict.{IsMatchedRun, reconcile-IsMatchedRun}

-- `datetime.fromtimestamp` on the years 1970 to 9998.
abbrev from_timestamp : ℤ → Result (Unit {0})
from_timestamp ns =
    if leb_ℤ (pos 0) ns && ltb_ℤ ns (pos 253370764800000000000) then ok tt else raised value_error

program : Unit {0}
unfolding strip int_strip_left int_of_text get get_or eq_int cell int_of_cell int_field digits
    literal hex_run payload_bytes direction_of match_stamp match_line record_of parse_line
    parse_lines parse_analyzer_log names_eq frame_of parse_row parse_rows frames_end parse_frames
    in_phase marks measurement_window failures filter aligned_records is_unordered mismatches
    nonzero_counters span rates_far last_tests tests judge local_times with_summary reconcile_with
    reconcile exit_status
program = tt

abbrev zero_fields : List String → Fields → Fields
zero_fields [] rest = rest
zero_fields (name ∷ names) rest = field name (integer (pos 0)) (zero_fields names rest)

abbrev summary : Json
summary = object (
    field "frames" (integer (pos 3)) (
      zero_fields
        ("event_gaps" ∷ "channel_gaps" ∷ "forward_missing_records" ∷ "backward_or_duplicate_records"
          ∷ "device_drop_total" ∷ "measurement_queue_drops" ∷ "measurement_ring_drops"
          ∷ "data_loss_events" ∷ "data_loss_dropped" ∷ [])
        end))

abbrev frame_row : (host number payload : Option String) → Row
frame_row host number payload =
    ("host_ingest_ns", host)
    ∷ ("device_tick", number)
    ∷ ("channel_sequence", number)
    ∷ ("arbitration_id", some "2047")
    ∷ ("flags", some "0")
    ∷ ("dlc", some "0")
    ∷ ("device_drop_total", some "0")
    ∷ ("event_sequence", number)
    ∷ ("payload_hex", payload)
    ∷ []

abbrev run_dir : RunDir
run_dir = record {
  summary = ok (some summary);
  analyzer_log = some (
      codes "26-08-15 12:00:00.000 Send[7FF]: "
      ∷ codes "26-08-15 12:00:00.010 Send[7FF]: "
      ∷ codes "26-08-15 12:00:00.020 Send[7FF]: "
      ∷ codes "26-08-15 12:00:00.030 Send[7ff]:"
      ∷ codes "26-08-15 12:00:00.040 Send[7FF]: "
      ∷ []);
  frames = some (record {
    fieldnames = ok expected;
    rows =
        frame_row (some "1786766400010000000") (some "1") (some "")
        ∷ frame_row (some "1786766400020000000") (some "2") (some "")
        ∷ frame_row (some "1786766400030000000") (some "3") (some "")
        ∷ [];
    ending = complete;
  });
  diagnostics = (
    (("host_poll_ns", some "1786766400005000000") ∷ ("phase", some "measurement_start") ∷ [])
        ∷ (("host_poll_ns", some "1786766400035000000") ∷ ("phase", some "measurement_end") ∷ [])
        ∷ [],
    complete,
  );
}

abbrev no_report : Report
no_report = record {
  passed = true;
  frame_reconciliation = true;
  analyzer_total_records = 0;
  analyzer_pre_window_records = 0;
  analyzer_measurement_records = 0;
  analyzer_post_window_records = 0;
  dut_frame_records = 0;
  compared_records = 0;
  id_mismatches = 0;
  dlc_mismatches = 0;
  payload_mismatches = 0;
  analyzer_span_ns = 0;
  dut_span_ns = 0;
  errors = [];
}

abbrev report_of : Result Answer → Report
report_of (raised e) = no_report
report_of (ok (refused e)) = no_report
report_of (ok (reported r)) = r

three : (report_of (reconcile from_timestamp run_dir)).analyzer_measurement_records ≡ 3
unfolding program
three = refl

reported-run :
    reconcile from_timestamp run_dir ≡ ok (reported (report_of (reconcile from_timestamp run_dir)))
unfolding program
reported-run = refl

run-passes : (report_of (reconcile from_timestamp run_dir)).passed ≡ true
unfolding program
run-passes = refl

reconcile-IsMatchedRun_example : IsMatchedRun run_dir (report_of (reconcile from_timestamp run_dir))
reconcile-IsMatchedRun_example =
    reconcile-IsMatchedRun from_timestamp run_dir (report_of (reconcile from_timestamp run_dir))
      reported-run run-passes

bad_line :
    parse_lines 1 (codes "26-08-15 12:00:00.000 Send[7FF]: A" ∷ []) ≡ ok ([], invalid_line 1 ∷ [])
unfolding program
bad_line = refl

bad_month : parse_lines 1 (codes "26-13-15 12:00:00.000 Send[7FF]: AA" ∷ []) ≡ raised value_error
unfolding program
bad_month = refl

short_row : parse_rows 2 (frame_row (some "1") (some "1") none ∷ []) ≡ raised attribute_error
unfolding program
short_row = refl

abbrev short_run : RunDir
short_run = record run_dir {
  frames = some (record {
    fieldnames = ok expected;
    ending = complete;
    rows = frame_row (some "1") (some "1") none ∷ [];
  });
}

short_run-raises : reconcile from_timestamp short_run ≡ raised attribute_error
unfolding program
short_run-raises = refl

abbrev late_run : RunDir
late_run = record run_dir {
  frames = some (record {
    fieldnames = ok expected;
    rows = frame_row (some "1000000000000000000000") (some "1") (some "") ∷ [];
    ending = complete;
  });
}

late_run-raises : reconcile from_timestamp late_run ≡ raised value_error
unfolding program
late_run-raises = refl

parse_analyzer_log-raises_iff_example :
    (parse_analyzer_log (some (codes "26-13-15 12:00:00.000 Send[7FF]: AA" ∷ []))
      ≡ raised value_error)
    ↔ (value_error ≡ value_error) × HasBroken (codes "26-13-15 12:00:00.000 Send[7FF]: AA" ∷ [])
parse_analyzer_log-raises_iff_example =
    parse_analyzer_log-raises_iff (codes "26-13-15 12:00:00.000 Send[7FF]: AA" ∷ []) value_error

payload_bytes-payload_text_example :
    payload_bytes tight (payload_text (0xA5 ∷ 0 ∷ 255 ∷ [])) ≡ some (0xA5 ∷ 0 ∷ 255 ∷ [])
payload_bytes-payload_text_example =
    payload_bytes-payload_text (0xA5 ∷ 0 ∷ 255 ∷ []) (omega arith, (omega arith, (omega arith, tt)))
