-- ===== src/Analyzer/Reconcile.antt =====
-- The verdict on a run with an analyzer (scripts/phase3/reconcile_p3b_analyzer.py, `reconcile`). The
-- rates are compared as exact fractions; texts, percentiles and the affine fit are left out.
use hpm5321_can_analyzer.Common.{
  ℕ, ◌+◌, ◌-◌, ◌*◌, min, String, Bool, true, false, not, ◌&&◌, ◌||◌, Option, none, some, List, [],
  ◌∷◌, ◌++◌, length, take, any, is_empty, ltb, ◌==◌, if◌then◌else◌,
}
use hpm5321_can_analyzer.Common.Int.{ℤ, pos, pos_part, ◌-ℤ◌, ltb_ℤ, leb_ℤ, eqb_ℤ}
use hpm5321_can_analyzer.Common.Text.{text_eq}
use hpm5321_can_analyzer.Common.Json.{Json, null, object, Fields, get_or, eq_int}
use hpm5321_can_analyzer.Common.Python.{Result, ok, ◌>>=◌}
use hpm5321_can_analyzer.Analyzer.Log.{
  Direction, send, recv, LogRecord, AnalyzerError, no_records, no_frames, frame_count, span_count,
  not_increasing, not_send, id_differs, dlc_differs, payload_differs, rates_differ, no_bracket,
  summary_unreadable, summary_not_object, nonzero, parse_analyzer_log,
}
use hpm5321_can_analyzer.Analyzer.Frames.{
  Frame, Ending, Csv, parse_frames, Window, measurement_window,
}
use hpm5321_can_analyzer.Common.Python.{Row}

-- The errors of the tests that are true.
unfoldable pub failures : List (Bool × AnalyzerError) → List AnalyzerError
failures [] = []
failures (t ∷ ts) = let rest = failures ts in if t.0 then t.1 ∷ rest else rest

abbrev pub count_where : {A : Type 0} → (A → Bool) → List A → ℕ
count_where test [] = 0
count_where test (a ∷ rest) = (if test a then 1 else 0) + count_where test rest

unfoldable pub filter : {A : Type 0} → (A → Bool) → List A → List A
filter test [] = []
filter test (a ∷ rest) = let kept = filter test rest in if test a then a ∷ kept else kept

-- `values[-1]` where the list is not empty.
abbrev pub last_of : {A : Type 0} → A → List A → A
last_of a [] = a
last_of a (b ∷ rest) = last_of b rest

-- The records from the first frame's time to the last frame's.
unfoldable pub aligned_records : List LogRecord → List Frame → List LogRecord
unfolding filter
aligned_records records [] = []
aligned_records records (f ∷ fs) =
    filter
      (λ r.
        leb_ℤ f.host_ingest_ns r.timestamp_ns && leb_ℤ r.timestamp_ns (last_of f fs).host_ingest_ns)
      records

-- Whether a record's time is not after that of the one before it.
unfoldable pub is_unordered : List LogRecord → Bool
is_unordered [] = false
is_unordered (r ∷ rest) = elim rest [
  | [] ↦ false
  | s ∷ more ↦ leb_ℤ s.timestamp_ns r.timestamp_ns || is_unordered rest
]

abbrev pub is_send : Direction → Bool
is_send send = true
is_send recv = false

abbrev pub id_differ : LogRecord → Frame → Bool
id_differ r f = not (eqb_ℤ (pos r.arbitration_id) f.arbitration_id)

abbrev pub dlc_differ : LogRecord → Frame → Bool
dlc_differ r f = not (eqb_ℤ (pos r.dlc) f.dlc)

abbrev pub payload_differ : LogRecord → Frame → Bool
payload_differ r f = not (text_eq r.payload_hex f.payload_hex)

-- The pairs of `zip` that differ.
unfoldable pub mismatches : (LogRecord → Frame → Bool) → List LogRecord → List Frame → ℕ
mismatches differ [] fs = 0
mismatches differ (r ∷ rs) [] = 0
mismatches differ (r ∷ rs) (f ∷ fs) = (if differ r f then 1 else 0) + mismatches differ rs fs

abbrev pub low_rate_names : List String
low_rate_names =
    "event_gaps" ∷ "channel_gaps" ∷ "forward_missing_records" ∷ "backward_or_duplicate_records"
    ∷ "device_drop_total" ∷ "measurement_queue_drops" ∷ "measurement_ring_drops"
    ∷ "data_loss_events" ∷ "data_loss_dropped" ∷ []

unfoldable pub nonzero_counters : Fields → List String → List (Bool × AnalyzerError)
unfolding get_or eq_int
nonzero_counters summary [] = []
nonzero_counters summary (name ∷ names) =
    (not (eq_int (get_or null name summary) (pos 0)), nonzero name) ∷ nonzero_counters summary names

-- The time from the first to the last, 0 where it is not positive.
unfoldable pub span : List ℤ → ℕ
span [] = 0
span (t ∷ ts) = pos_part (last_of t ts -ℤ t)

abbrev pub distance : ℕ → ℕ → ℕ
distance a b = (a - b) + (b - a)

-- Whether the rate of `records` in `span_ns` differs from that of `frames` in `dut_span_ns` by more
-- than 0.5 percent of the latter. A rate over no time is 0.
unfoldable pub rates_far : (records span_ns frames dut_span_ns : ℕ) → Bool
rates_far records span_ns frames dut_span_ns =
    if dut_span_ns == 0
    then false
    else if span_ns == 0
    then true
    else ltb ((frames - 1) * span_ns)
        (200 * distance ((records - 1) * dut_span_ns) ((frames - 1) * span_ns))

abbrev pub times_of : List LogRecord → List ℤ
times_of [] = []
times_of (r ∷ rs) = r.timestamp_ns ∷ times_of rs

abbrev pub frame_times : List Frame → List ℤ
frame_times [] = []
frame_times (f ∷ fs) = f.host_ingest_ns ∷ frame_times fs

-- The returned dictionary, without what is derived from other values; the verdicts on the order of
-- the records and on the times are that on the frames.
pub record Report : Type 0 where
  pub passed : Bool
  pub frame_reconciliation : Bool
  pub analyzer_total_records : ℕ
  pub analyzer_pre_window_records : ℕ
  pub analyzer_measurement_records : ℕ
  pub analyzer_post_window_records : ℕ
  pub dut_frame_records : ℕ
  pub compared_records : ℕ
  pub id_mismatches : ℕ
  pub dlc_mismatches : ℕ
  pub payload_mismatches : ℕ
  pub analyzer_span_ns : ℕ
  pub dut_span_ns : ℕ
  pub errors : List AnalyzerError

abbrev pub is_positive : ℕ → Bool
is_positive n = not (n == 0)

-- The rates, and whether the log has records before and after the window.
unfoldable pub last_tests :
    (records aligned : List LogRecord) → List Frame → Window → List (Bool × AnalyzerError)
unfolding span rates_far
last_tests records aligned frames window =
    (
      rates_far (length aligned) (span (times_of aligned)) (length frames)
          (span (frame_times frames)),
      rates_differ,
    )
    ∷ (
      count_where (λ r. ltb_ℤ r.timestamp_ns window.start_ns) records == 0
          || count_where (λ r. ltb_ℤ window.end_ns r.timestamp_ns) records == 0,
      no_bracket,
    )
    ∷ []

-- The tests on what was read, in their order.
unfoldable pub tests : Fields → List LogRecord → List Frame → Window → List (Bool × AnalyzerError)
unfolding get_or eq_int aligned_records is_unordered mismatches nonzero_counters last_tests
tests summary records frames window =
    let aligned = aligned_records records frames in
    let compared = min (length aligned) (length frames) in
    let count = λ (differ : LogRecord → Frame → Bool).
      mismatches differ (take compared aligned) (take compared frames) in
    (is_empty records, no_records)
    ∷ (is_empty frames, no_frames)
    ∷ (not (eq_int (get_or null "frames" summary) (pos (length frames))), frame_count)
    ∷ (not (length aligned == length frames), span_count)
    ∷ (is_unordered records, not_increasing)
    ∷ (any (λ r. not (is_send r.direction)) records, not_send)
    ∷ (is_positive (count id_differ), id_differs)
    ∷ (is_positive (count dlc_differ), dlc_differs)
    ∷ (is_positive (count payload_differ), payload_differs)
    ∷ (nonzero_counters summary low_rate_names ++ last_tests records aligned frames window)

-- The body once the files are read.
unfoldable pub judge :
    Fields → List LogRecord → List Frame → Window → (read_errors : List AnalyzerError) → Report
unfolding tests failures aligned_records mismatches span
judge summary records frames window read_errors =
    let aligned = aligned_records records frames in
    let compared = min (length aligned) (length frames) in
    let count = λ (differ : LogRecord → Frame → Bool).
      mismatches differ (take compared aligned) (take compared frames) in
    let errors = read_errors ++ failures (tests summary records frames window) in
    let exact_match =
      not (is_empty frames)
      && length aligned == length frames
      && count id_differ == 0
      && count dlc_differ == 0
      && count payload_differ == 0 in
    record {
      passed = is_empty errors;
      frame_reconciliation = exact_match && is_empty errors;
      analyzer_total_records = length records;
      analyzer_pre_window_records = count_where (λ r. ltb_ℤ r.timestamp_ns window.start_ns) records;
      analyzer_measurement_records = length aligned;
      analyzer_post_window_records = count_where (λ r. ltb_ℤ window.end_ns r.timestamp_ns) records;
      dut_frame_records = length frames;
      compared_records = compared;
      id_mismatches = count id_differ;
      dlc_mismatches = count dlc_differ;
      payload_mismatches = count payload_differ;
      analyzer_span_ns = span (times_of aligned);
      dut_span_ns = span (frame_times frames);
      errors = errors;
    }

-- What `reconcile` returns: a refusal with one error, or a report.
pub data Answer : Type 0 where
  refused : AnalyzerError → Answer
  reported : Report → Answer

-- The files. The summary and the log are `none` where an error that is caught keeps them from being
-- read; the summary raises what is not caught, such as a ValueError for a text that is not UTF-8.
pub record RunDir : Type 0 where
  pub summary : Result (Option Json)
  pub analyzer_log : Option (List (List ℕ))
  pub frames : Option Csv
  pub diagnostics : List Row × Ending

-- `from_timestamp` is `datetime.fromtimestamp` on a number of nanoseconds, without its value: it
-- raises for a time out of its range.
module _ (from_timestamp : ℤ → Result (Unit {0})) where
  -- `iso_local(ns) if ns else None`
  abbrev pub local_mark : ℤ → Result (Unit {0})
  local_mark ns = if eqb_ℤ ns (pos 0) then ok tt else from_timestamp ns

  -- The local times that the report is given: the window's, and the first and the last frame's.
  unfoldable pub local_times : Window → List Frame → Result (Unit {0})
  local_times window [] = do start ← local_mark window.start_ns; local_mark window.end_ns
  local_times window (f ∷ fs) = do
    start ← local_mark window.start_ns
    end ← local_mark window.end_ns
    first ← from_timestamp f.host_ingest_ns
    from_timestamp (last_of f fs).host_ingest_ns

  -- The files beside the summary, once it is parsed.
  unfoldable pub reconcile_with : RunDir → Json → Result Answer
  unfolding parse_analyzer_log parse_frames measurement_window judge local_times
  reconcile_with dir (object summary) = do
    analyzer ← parse_analyzer_log dir.analyzer_log
    frames ← parse_frames dir.frames
    window ← measurement_window dir.diagnostics
    times ← local_times window frames.0
    ok (
        reported
          (judge summary analyzer.0 frames.0 window (analyzer.1 ++ frames.1 ++ window.errors)))
  reconcile_with dir _ = ok (refused summary_not_object)

  -- What the file of the summary gives.
  unfoldable pub with_summary : RunDir → Option Json → Result Answer
  unfolding reconcile_with
  with_summary dir none = ok (refused summary_unreadable)
  with_summary dir (some json) = reconcile_with dir json

  unfoldable pub reconcile : RunDir → Result Answer
  unfolding with_summary
  reconcile dir = dir.summary >>= with_summary dir

abbrev pub has_passed : Answer → Bool
has_passed (refused e) = false
has_passed (reported report) = report.passed

-- The exit status of `main`.
unfoldable pub exit_status : Answer → ℕ
exit_status answer = if has_passed answer then 0 else 1
