-- ===== src/Analyzer/Verdict.antt =====
-- What a passing verdict says of the run (scripts/phase3/reconcile_p3b_analyzer.py, `reconcile`).
use hpm5321_can_analyzer.Common.{
  ℕ, ◌≤◌, ◌≡◌, ◌∙◌, sym, ap, ap₂, inl, inr, min, Bool, true, false, not, ◌&&◌, ◌||◌, some, List, [],
  ◌++◌, length, take, is_empty, ◌==◌, arith,
}
use hpm5321_can_analyzer.Common.Int.{ℤ, pos, ltb_ℤ}
use hpm5321_can_analyzer.Common.Json.{Json, null, object, Fields, get_or, eq_int}
use hpm5321_can_analyzer.Common.Python.{Result, ok, bind_returns}
use hpm5321_can_analyzer.Common.{Option-cases}
use hpm5321_can_analyzer.Analyzer.Log.{LogRecord, AnalyzerError, parse_analyzer_log}
use hpm5321_can_analyzer.Analyzer.Frames.{Frame, parse_frames, Window, measurement_window}
use hpm5321_can_analyzer.Analyzer.Reconcile.{
  failures, count_where, aligned_records, id_differ, dlc_differ, payload_differ, mismatches,
  low_rate_names, nonzero_counters, span, rates_far, times_of, frame_times, Report, is_positive,
  last_tests, tests, judge, reported, RunDir, local_times, reconcile_with, with_summary, reconcile,
}
use hpm5321_can_analyzer.Analyzer.Matches.{
  AllFalse, failures-AllFalse, AllFalse-append, both_empty, AllMatch, IsIncreasing, AllSent,
  AllZero, not-false, mismatches-AllMatch, unordered-IsIncreasing, any-AllSent, counters-AllZero,
  take_all,
}

-- What the tests say when none of them fails.
record IsFaultless (summary : Fields) (records : List LogRecord) (frames : List Frame)
    (window : Window) : Type 0 where
  some_frames : is_empty frames ≡ false
  frame_count : eq_int (get_or null "frames" summary) (pos (length frames)) ≡ true
  same_length : length (aligned_records records frames) ≡ length frames
  all_match : AllMatch (aligned_records records frames) frames
  increasing : IsIncreasing records
  all_sent : AllSent records
  all_zero : AllZero summary low_rate_names
  rates :
      rates_far
        (length (aligned_records records frames))
        (span (times_of (aligned_records records frames)))
        (length frames)
        (span (frame_times frames))
      ≡ false
  bracketed :
      (count_where (λ r. ltb_ℤ r.timestamp_ns window.start_ns) records == 0
        || count_where (λ r. ltb_ℤ window.end_ns r.timestamp_ns) records == 0)
      ≡ false

not_positive : (n : ℕ) → is_positive n ≡ false → n ≡ 0
not_positive n h = ground arith

compared_all :
    (differ : LogRecord → Frame → Bool) (rs : List LogRecord) (fs : List Frame)
    → length rs ≡ length fs
    → is_positive (
        mismatches differ
          (take (min (length rs) (length fs)) rs)
          (take (min (length rs) (length fs)) fs))
      ≡ false
    → mismatches differ rs fs ≡ 0
compared_all differ rs fs same h =
    let n = min (length rs) (length fs) in
    let all_rs = take_all n rs (omega (arith, same)) in
    let all_fs = take_all n fs (omega (arith, same)) in
    sym (ap₂ (mismatches differ) all_rs all_fs) ∙ not_positive _ h

equal_lengths : (a b : ℕ) → not (a == b) ≡ false → a ≡ b
equal_lengths a b h = ground arith

tests-IsFaultless :
    (summary : Fields) (records : List LogRecord) (frames : List Frame) (window : Window)
    → AllFalse (tests summary records frames window)
    → IsFaultless summary records frames window
unfolding tests last_tests
tests-IsFaultless summary records frames window h =
    let aligned = aligned_records records frames in
    let h3 = h.1.1.1 in
    let same = equal_lengths (length aligned) (length frames) h3.0 in
    let h6 = h3.1.1.1 in
    let tail =
      AllFalse-append (nonzero_counters summary low_rate_names)
        (last_tests records aligned frames window) h6.1.1.1 in
    record {
      some_frames = h.1.0;
      frame_count = not-false _ h.1.1.0;
      same_length = same;
      all_match =
          mismatches-AllMatch aligned frames same (compared_all id_differ aligned frames same h6.0)
            (compared_all dlc_differ aligned frames same h6.1.0)
            (compared_all payload_differ aligned frames same h6.1.1.0);
      increasing = unordered-IsIncreasing records h3.1.0;
      all_sent = any-AllSent records h3.1.1.0;
      all_zero = counters-AllZero summary low_rate_names tail.0;
      rates = tail.1.0;
      bracketed = tail.1.1.0;
    }

-- What a passing run shows.
pub record IsMatchedRun (dir : RunDir) (report : Report) : Type 0 where
  pub summary : Fields
  pub summary_read : dir.summary ≡ ok (some (object summary))
  pub records : List LogRecord
  pub log_read : parse_analyzer_log dir.analyzer_log ≡ ok (records, [])
  pub frames : List Frame
  pub frames_read : parse_frames dir.frames ≡ ok (frames, [])
  pub window : Window
  pub window_read : measurement_window dir.diagnostics ≡ ok window
  pub no_window_error : window.errors ≡ []
  pub some_frames : is_empty frames ≡ false
  pub frame_count : eq_int (get_or null "frames" summary) (pos (length frames)) ≡ true
  pub all_match : AllMatch (aligned_records records frames) frames
  pub increasing : IsIncreasing records
  pub all_sent : AllSent records
  pub all_zero : AllZero summary low_rate_names
  pub rates :
      rates_far
        (length (aligned_records records frames))
        (span (times_of (aligned_records records frames)))
        (length frames)
        (span (frame_times frames))
      ≡ false
  pub before : 1 ≤ report.analyzer_pre_window_records
  pub after : 1 ≤ report.analyzer_post_window_records
  pub frame_verdict : report.frame_reconciliation ≡ true

bracket_counts : (a b : ℕ) → (a == 0 || b == 0) ≡ false → (1 ≤ a) × (1 ≤ b)
bracket_counts a b h = ground arith

mismatch_free : (n : ℕ) → is_positive n ≡ false → (n == 0) ≡ true
mismatch_free n h = ground arith

-- What was read and judged when the report passes.
record IsJudged (summary : Fields) (records : List LogRecord) (frames : List Frame)
    (window : Window) (read_errors : List AnalyzerError) : Type 0 where
  no_read_errors : read_errors ≡ []
  faultless : IsFaultless summary records frames window
  agrees : (judge summary records frames window read_errors).frame_reconciliation ≡ true

all_agree :
    (a b c d e f : Bool)
    → f ≡ true
    → a ≡ false
    → not b ≡ false
    → c ≡ true
    → d ≡ true
    → e ≡ true
    → (not a && b && c && d && e && f) ≡ true
all_agree a b c d e f hf ha hb hc hd he = ground arith

judge-IsJudged :
    (summary : Fields) (records : List LogRecord) (frames : List Frame) (window : Window)
    (read_errors : List AnalyzerError)
    → (judge summary records frames window read_errors).passed ≡ true
    → IsJudged summary records frames window read_errors
unfolding judge tests
judge-IsJudged summary records frames window read_errors h =
    let ts = tests summary records frames window in
    let aligned = aligned_records records frames in
    let compared = min (length aligned) (length frames) in
    let count = λ (differ : LogRecord → Frame → Bool).
      mismatches differ (take compared aligned) (take compared frames) in
    let e = both_empty read_errors (failures ts) h in
    let falses = failures-AllFalse ts e.1 in
    let h3 = falses.1.1.1 in
    let h6 = h3.1.1.1 in
    let f = tests-IsFaultless summary records frames window falses in
    record {
      no_read_errors = e.0;
      faultless = f;
      agrees =
          all_agree (is_empty frames) (length aligned == length frames) (count id_differ == 0)
            (count dlc_differ == 0) (count payload_differ == 0)
            (is_empty (read_errors ++ failures ts)) h falses.1.0 h3.0 (mismatch_free _ h6.0)
            (mismatch_free _ h6.1.0) (mismatch_free _ h6.1.1.0);
    }

reported-injective : {r s : Report} → ok (reported r) ≡ ok (reported s) → r ≡ s
reported-injective h = cc

reports_of :
    (from_timestamp : ℤ → Result (Unit {0})) (dir : RunDir) (json : Json) (report : Report)
    → dir.summary ≡ ok (some json)
    → reconcile_with from_timestamp dir json ≡ ok (reported report)
    → report.passed ≡ true
    → IsMatchedRun dir report
unfolding reconcile_with judge
reports_of from_timestamp dir (object summary) report is h pass =
    let (analyzer, e1, h1) = bind_returns (parse_analyzer_log dir.analyzer_log) _ h in
    let (found, e2, h2) = bind_returns (parse_frames dir.frames) _ h1 in
    let (window, e3, h3) = bind_returns (measurement_window dir.diagnostics) _ h2 in
    let (times, e4, h4) = bind_returns (local_times from_timestamp window found.0) _ h3 in
    let read_errors = analyzer.1 ++ found.1 ++ window.errors in
    let same : judge summary analyzer.0 found.0 window read_errors ≡ report =
      reported-injective h4 in
    let j =
      judge-IsJudged summary analyzer.0 found.0 window read_errors
        (ap (λ r. r.passed) same ∙ pass) in
    let all_read =
      both_empty (analyzer.1 ++ found.1) window.errors (ap is_empty j.no_read_errors) in
    let files = both_empty analyzer.1 found.1 (ap is_empty all_read.0) in
    let f = j.faultless in
    let counts =
      bracket_counts (count_where (λ r. ltb_ℤ r.timestamp_ns window.start_ns) analyzer.0)
        (count_where (λ r. ltb_ℤ window.end_ns r.timestamp_ns) analyzer.0) f.bracketed in
    record {
      summary = summary;
      summary_read = is;
      records = analyzer.0;
      log_read = e1 ∙ ap (λ es. ok (analyzer.0, es)) files.0;
      frames = found.0;
      frames_read = e2 ∙ ap (λ es. ok (found.0, es)) files.1;
      window = window;
      window_read = e3;
      no_window_error = all_read.1;
      some_frames = f.some_frames;
      frame_count = f.frame_count;
      all_match = f.all_match;
      increasing = f.increasing;
      all_sent = f.all_sent;
      all_zero = f.all_zero;
      rates = f.rates;
      before = omega (arith, counts.0, ap (λ r. r.analyzer_pre_window_records) same);
      after = omega (arith, counts.1, ap (λ r. r.analyzer_post_window_records) same);
      frame_verdict = sym (ap (λ r. r.frame_reconciliation) same) ∙ j.agrees;
    }
reports_of from_timestamp dir null report is h pass = cc
reports_of from_timestamp dir (Json.boolean b) report is h pass = cc
reports_of from_timestamp dir (Json.integer n) report is h pass = cc
reports_of from_timestamp dir (Json.real n k) report is h pass = cc
reports_of from_timestamp dir Json.nan report is h pass = cc
reports_of from_timestamp dir (Json.infinity negative) report is h pass = cc
reports_of from_timestamp dir (Json.string text) report is h pass = cc
reports_of from_timestamp dir (Json.list items) report is h pass = cc

-- A report that passes: the log, the frames and the measurement window were read without an error;
-- there are frames, as many as the summary says; the records between the first frame's time and the
-- last's are the frames, place by place, in identifier, length and payload; the log's times
-- increase, all its records were sent, and some are before and some after the window; the summary's
-- counters of gaps, drops and losses are 0; the rates differ by at most half a percent; and the
-- verdict on the frames passes too.
pub reconcile-IsMatchedRun :
    (from_timestamp : ℤ → Result (Unit {0})) (dir : RunDir) (report : Report)
    → reconcile from_timestamp dir ≡ ok (reported report)
    → report.passed ≡ true
    → IsMatchedRun dir report
unfolding reconcile with_summary
reconcile-IsMatchedRun from_timestamp dir report h pass =
    let (found, e, h1) = bind_returns dir.summary (with_summary from_timestamp dir) h in
    elim (Option-cases found) [
      | inl missing ↦ let h' = rw missing at h1 in cc
      | inr (json, is) ↦ reports_of from_timestamp dir json report (e ∙ ap ok is) (rw is at h1) pass
    ]
