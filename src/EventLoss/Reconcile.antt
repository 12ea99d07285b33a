-- ===== src/EventLoss/Reconcile.antt =====
-- The verdict on a backpressure run (scripts/phase3/reconcile_p3b_backpressure.py, `reconcile` and
-- the exit status of `main`). The files are arguments: `summary.json` as parsed, and the rows of
-- the three CSV files.
use hpm5321_can_analyzer.Common.{
  ℕ, ◌+◌, String, Bool, true, false, not, ◌&&◌, List, [], ◌∷◌, ◌++◌, any, all, is_empty, ◌==◌,
  if◌then◌else◌,
}
use hpm5321_can_analyzer.Common.Int.{ℤ, pos, ◌+ℤ◌, eqb_ℤ, ltb_ℤ}
use hpm5321_can_analyzer.Common.Python.{Result, ok, ◌>>=◌, Row, int_field}
use hpm5321_can_analyzer.Common.Json.{
  Json, null, integer, Fields, get_or, eq_int, to_int, as_object,
}
use hpm5321_can_analyzer.EventLoss.Ranges.{Range, range_count}
use hpm5321_can_analyzer.EventLoss.Observed.{LogError, loss_events_differ, observed_missing_ranges}
use hpm5321_can_analyzer.EventLoss.Declared.{declared_loss_ranges, Losses}

abbrev pub event_data_loss : ℤ
event_data_loss = pos 0x8005

abbrev pub event_flow_control : ℤ
event_flow_control = pos 0x8004

pub data Status : Type 0 where
  pass partial fail : Status

-- `[int(row[name]) for row in rows]`
unfoldable pub int_column : String → List Row → Result (List ℤ)
int_column name [] = ok []
int_column name (row ∷ rows) = do v ← int_field row name; vs ← int_column name rows; ok (v ∷ vs)

abbrev singleton : ℤ → List ℤ
singleton v = v ∷ []

-- `int(row[value]) for row in rows if int(row[key]) == wanted`
unfoldable pub int_where : String → String → ℤ → List Row → Result (List ℤ)
int_where value key wanted [] = ok []
int_where value key wanted (row ∷ rows) = do
  k ← int_field row key
  here ← if eqb_ℤ k wanted then (do v ← int_field row value; ok (singleton v)) else ok []
  rest ← int_where value key wanted rows
  ok (here ++ rest)

abbrev pub mem_int : ℤ → List ℤ → Bool
mem_int n ns = any (eqb_ℤ n) ns

-- `set(a) == set(b)`
unfoldable pub same_set : List ℤ → List ℤ → Bool
same_set ms ns = all (λ m. mem_int m ns) ms && all (λ n. mem_int n ms) ns

-- `len(set(ns))`
unfoldable pub set_size : List ℤ → ℕ
set_size [] = 0
set_size (n ∷ ns) = (if mem_int n ns then 0 else 1) + set_size ns

-- `max(ns, default=0)`
abbrev max_from : ℤ → List ℤ → ℤ
max_from best [] = best
max_from best (n ∷ ns) = max_from (if ltb_ℤ best n then n else best) ns

unfoldable pub max_or_zero : List ℤ → ℤ
max_or_zero [] = pos 0
max_or_zero (n ∷ ns) = max_from n ns

unfoldable pub sum_int : List ℤ → ℤ
sum_int [] = pos 0
sum_int (n ∷ ns) = n +ℤ sum_int ns

abbrev count_int : ℤ → List ℤ → ℕ
count_int n [] = 0
count_int n (m ∷ ms) = (if eqb_ℤ m n then 1 else 0) + count_int n ms

abbrev above : ℤ → List ℤ → List ℤ
above bound [] = []
above bound (n ∷ ns) = if ltb_ℤ bound n then n ∷ above bound ns else above bound ns

unfoldable pub ranges_eq : List Range → List Range → Bool
ranges_eq [] [] = true
ranges_eq (r ∷ rs) (s ∷ ss) = r.first == s.first && r.last == s.last && ranges_eq rs ss
ranges_eq (r ∷ rs) [] = false
ranges_eq [] (s ∷ ss) = false

-- The returned dictionary. `limited` says that its list of limitations is not empty; the lists of
-- ranges carry their counts, which are functions of the ranges.
pub record Report : Type 0 where
  pub status : Status
  pub usb_backpressure_recovery : Bool
  pub event_sequence_reconciliation : Bool
  pub channel_sequence_reconciliation : Status
  pub observed_event_missing_ranges : List Range
  pub declared_event_loss_ranges : List Range
  pub observed_event_missing_count : ℕ
  pub declared_event_loss_count : ℤ
  pub data_loss_event_count : ℕ
  pub flow_control_event_count : ℕ
  pub channel_missing_records : ℤ
  pub channel_domain_declared_drops : ℤ
  pub post_loss_frame_event_count : ℕ
  pub limited : Bool
  pub errors : List LogError

unfoldable pub channel_status : (missing dropped : ℤ) → Status
channel_status missing dropped =
    if eqb_ℤ missing (pos 0) then pass else if eqb_ℤ dropped missing then pass else partial

abbrev is_pass : Status → Bool
is_pass pass = true
is_pass _ = false

unfoldable pub overall : (event_exact recovery : Bool) → Status → Status
overall event_exact recovery channel =
    if event_exact && recovery && is_pass channel
    then pass
    else if event_exact && recovery
    then partial
    else fail

abbrev is_zero : String → Fields → Bool
is_zero name summary = eq_int (get_or null name summary) (pos 0)

unfoldable pub no_drops : Fields → Bool
no_drops summary =
    is_zero "device_drop_total" summary
    && is_zero "measurement_queue_drops" summary
    && is_zero "measurement_ring_drops" summary

-- The body once the files and columns are read; `frame_events` is the `event_sequence` column of
-- `frames.csv`.
unfoldable pub judge :
    Fields
    → (missing : List Range) (missing_errors : List LogError) (losses : Losses)
    → (event_types loss_events ledger_events frame_events : List ℤ)
      (channel_missing channel_dropped : ℤ)
    → Report
unfolding same_set set_size max_or_zero ranges_eq channel_status overall no_drops
judge summary missing missing_errors losses event_types loss_events ledger_events frame_events
      channel_missing channel_dropped =
    let read_errors = missing_errors ++ losses.errors in
    let errors =
      if same_set loss_events ledger_events
      then read_errors
      else read_errors ++ loss_events_differ ∷ [] in
    let event_exact = ranges_eq missing losses.merged && is_empty errors in
    let recovered = above (max_or_zero loss_events) frame_events in
    let recovery = not (is_empty recovered) && no_drops summary in
    let channel = channel_status channel_missing channel_dropped in
    record {
      status = overall event_exact recovery channel;
      usb_backpressure_recovery = recovery;
      event_sequence_reconciliation = event_exact;
      channel_sequence_reconciliation = channel;
      observed_event_missing_ranges = missing;
      declared_event_loss_ranges = losses.merged;
      observed_event_missing_count = range_count missing;
      declared_event_loss_count = losses.declared_count;
      data_loss_event_count = count_int event_data_loss event_types;
      flow_control_event_count = count_int event_flow_control event_types;
      channel_missing_records = channel_missing;
      channel_domain_declared_drops = channel_dropped;
      post_loss_frame_event_count = set_size recovered;
      limited = not (is_pass channel);
      errors = errors;
    }

unfoldable pub reconcile : (summary : Json) (events losses frames : List Row) → Result Report
unfolding judge int_column int_where sum_int observed_missing_ranges declared_loss_ranges
reconcile summary events losses frames = do
  (missing, missing_errors) ← observed_missing_ranges events
  declared ← declared_loss_ranges losses
  event_types ← int_column "message_type" events
  loss_events ← int_where "event_sequence" "sequence_domain" (pos 1) losses
  ledger_events ← int_where "event_sequence" "message_type" event_data_loss events
  frame_events ← int_column "event_sequence" frames
  fields ← as_object summary
  channel_missing ← to_int (get_or (integer (pos 0)) "forward_missing_records" fields)
  dropped ← int_where "dropped_count" "sequence_domain" (pos 2) losses
  ok (
      judge fields missing missing_errors declared event_types loss_events ledger_events
        frame_events channel_missing (sum_int dropped))

-- `main` exits with 0 unless the status is FAIL.
unfoldable pub exit_code : Report → ℕ
exit_code report = elim report.status [ fail ↦ 1 | _ ↦ 0 ]
