-- ===== src/EventLoss/Verdict.antt =====
-- What the verdict of `reconcile` says of the run.
use hpm5321_can_analyzer.Common.{
  ℕ, ◌≤◌, ◌≡◌, ◌≢◌, refl, sym, ◌∙◌, ap, inl, inr, Bool, true, ◌&&◌, List, [], ◌∷◌, ◌++◌, arith, ltb,
  if◌then◌else◌, is_empty, append-nil_right, Bool-cases,
}
use hpm5321_can_analyzer.Common.Int.{ℤ, pos}
use hpm5321_can_analyzer.Common.Json.{Json, integer, object, Fields, get_or, to_int, as_object}
use hpm5321_can_analyzer.Common.Python.{ok, bind_returns, ok-injective, Row}
use hpm5321_can_analyzer.EventLoss.Ranges.{Range, range_count}
use hpm5321_can_analyzer.EventLoss.Merge.{covers}
use hpm5321_can_analyzer.EventLoss.Observed.{LogError, loss_events_differ, observed_missing_ranges}
use hpm5321_can_analyzer.EventLoss.Gaps.{Logged, in_gaps, observed-covers-gaps}
use hpm5321_can_analyzer.EventLoss.Declared.{Loss, Losses, declared_loss_ranges}
use hpm5321_can_analyzer.EventLoss.LossRows.{Declares, declarations, AllExact}
use hpm5321_can_analyzer.EventLoss.Losses.{AreAccounted, declared_losses_exact}
use hpm5321_can_analyzer.EventLoss.Reconcile.{
  Status, fail, Report, ranges_eq, overall, no_drops, judge, reconcile, exit_code, int_column,
  int_where, sum_int, event_data_loss, same_set,
}

ranges_eq→eq : (rs ss : List Range) → ranges_eq rs ss ≡ true → rs ≡ ss
unfolding ranges_eq
ranges_eq→eq [] [] h = refl
ranges_eq→eq [] (s ∷ ss) h = cc
ranges_eq→eq (r ∷ rs) [] h = cc
ranges_eq→eq (r ∷ rs) (s ∷ ss) h = ground (arith, ranges_eq→eq rs ss)

-- What `reconcile` has read when it returns.
record IsReading (summary : Json) (events losses frames : List Row) (report : Report) : Type 0 where
  fields : Fields
  missing : List Range
  missing_errors : List LogError
  declared : Losses
  event_types : List ℤ
  loss_events : List ℤ
  ledger_events : List ℤ
  frame_events : List ℤ
  channel_missing : ℤ
  channel_dropped : ℤ
  is_object : as_object summary ≡ ok fields
  observed : observed_missing_ranges events ≡ ok (missing, missing_errors)
  read_losses : declared_loss_ranges losses ≡ ok declared
  read_frames : int_column "event_sequence" frames ≡ ok frame_events
  judged :
      report
      ≡ judge fields missing missing_errors declared event_types loss_events ledger_events
          frame_events channel_missing channel_dropped

reconcile-IsReading :
    (summary : Json) (events losses frames : List Row) (report : Report)
    → reconcile summary events losses frames ≡ ok report
    → IsReading summary events losses frames report
unfolding reconcile
reconcile-IsReading summary events losses frames report h =
    let (seen, e1, h1) = bind_returns (observed_missing_ranges events) _ h in
    let (declared, e2, h2) = bind_returns (declared_loss_ranges losses) _ h1 in
    let (event_types, e3, h3) = bind_returns (int_column "message_type" events) _ h2 in
    let (loss_events, e4, h4) =
      bind_returns (int_where "event_sequence" "sequence_domain" (pos 1) losses) _ h3 in
    let (ledger_events, e5, h5) =
      bind_returns (int_where "event_sequence" "message_type" event_data_loss events) _ h4 in
    let (frame_events, e6, h6) = bind_returns (int_column "event_sequence" frames) _ h5 in
    let (fields, e7, h7) = bind_returns (as_object summary) _ h6 in
    let (channel_missing, e8, h8) =
      bind_returns (to_int (get_or (integer (pos 0)) "forward_missing_records" fields)) _ h7 in
    let (dropped, e9, h9) =
      bind_returns (int_where "dropped_count" "sequence_domain" (pos 2) losses) _ h8 in
    record {
      fields = fields;
      missing = seen.0;
      missing_errors = seen.1;
      declared = declared;
      event_types = event_types;
      loss_events = loss_events;
      ledger_events = ledger_events;
      frame_events = frame_events;
      channel_missing = channel_missing;
      channel_dropped = sum_int dropped;
      is_object = e7;
      observed = e1;
      read_losses = e2;
      read_frames = e6;
      judged = ok-injective (sym h9);
    }

exit_code-zero : (report : Report) → exit_code report ≡ 0 → report.status ≢ fail
unfolding exit_code
exit_code-zero report h = ground arith

overall-cases :
    (event_exact recovery : Bool) (channel : Status)
    → overall event_exact recovery channel ≢ fail
    → (event_exact ≡ true) × (recovery ≡ true)
unfolding overall
overall-cases event_exact recovery channel h = ground arith

is_empty→nil {ℓ} : {A : Type ℓ} (xs : List A) → is_empty xs ≡ true → xs ≡ []
is_empty→nil [] h = refl
is_empty→nil (x ∷ xs) h = cc

append-nil_parts {ℓ} : {A : Type ℓ} (xs ys : List A) → xs ++ ys ≡ [] → (xs ≡ []) × (ys ≡ [])
append-nil_parts [] ys h = (refl, h)
append-nil_parts (x ∷ xs) ys h = cc

and-true : (a b : Bool) → (a && b) ≡ true → (a ≡ true) × (b ≡ true)
and-true a b h = ground arith

errors_nil :
    (errors : List LogError) (ms ns : List ℤ)
    → (if same_set ms ns then errors else errors ++ loss_events_differ ∷ []) ≡ []
    → errors ≡ []
errors_nil errors ms ns h = elim (Bool-cases (same_set ms ns)) [
  | inl same ↦ rw same at h
  | inr other ↦ absurd (append-nil_right errors loss_events_differ (rw other at h))
]

-- The facts behind a verdict that is not FAIL.
record IsExactJudgement (fields : Fields) (missing : List Range) (missing_errors : List LogError)
    (losses : Losses) (report : Report) : Type 0 where
  no_missing_errors : missing_errors ≡ []
  no_loss_errors : losses.errors ≡ []
  no_errors : report.errors ≡ []
  same : missing ≡ losses.merged
  clean : no_drops fields ≡ true

module _ (fields : Fields) (missing : List Range) (missing_errors : List LogError) (losses : Losses)
    (event_types loss_events ledger_events frame_events : List ℤ)
    (channel_missing channel_dropped : ℤ) where
  abbrev judged_report : Report
  judged_report =
      judge fields missing missing_errors losses event_types loss_events ledger_events frame_events
        channel_missing channel_dropped

  judge-exact :
      judged_report.status ≢ fail
      → IsExactJudgement fields missing missing_errors losses judged_report
  unfolding judge
  judge-exact h =
      let (exact, recovered) = overall-cases _ _ _ h in
      let (same, empty) = and-true (ranges_eq missing losses.merged) _ exact in
      let none : judged_report.errors ≡ [] = is_empty→nil _ empty in
      let parts =
        append-nil_parts missing_errors losses.errors
          (errors_nil _ loss_events ledger_events none) in
      record {
        no_missing_errors = parts.0;
        no_loss_errors = parts.1;
        no_errors = none;
        same = ranges_eq→eq missing losses.merged same;
        clean = (and-true _ (no_drops fields) recovered).1;
      }

-- What exit status 0 vouches for.
pub record IsReconciled (fields : Fields) (ns : List ℕ) (ls : List Loss) (report : Report)
    : Type 0 where
  pub no_errors : report.errors ≡ []
  pub lost_as_declared : (x : ℕ) → in_gaps x ns ≡ ltb 0 (declarations x ls)
  pub declared_once : (x : ℕ) → declarations x ls ≤ 1
  pub rows_exact : AllExact ls
  pub counts_agree : pos report.observed_event_missing_count ≡ report.declared_event_loss_count
  pub none_dropped : no_drops fields ≡ true

-- If the script exits with 0, then no error was noted; a sequence is passed between two
-- consecutive events exactly if an event loss declares it, and none is declared twice; each event
-- loss drops as many sequences as its range holds; the two counts of lost sequences agree; and
-- the summary's three drop counters are zero.
pub reconcile-IsReconciled :
    (fields : Fields) (events losses frames : List Row) (report : Report) (ns : List ℕ)
    (ls : List Loss)
    → Logged events ns
    → Declares losses ls
    → reconcile (object fields) events losses frames ≡ ok report
    → exit_code report ≡ 0
    → IsReconciled fields ns ls report
unfolding judge as_object
reconcile-IsReconciled fields events losses frames report ns ls l d h z =
    let r = reconcile-IsReading (object fields) events losses frames report h in
    let alive : (judged_of r).status ≢ fail = rw r.judged at (exit_code-zero report z) in
    let j =
      judge-exact r.fields r.missing r.missing_errors r.declared r.event_types r.loss_events
        r.ledger_events r.frame_events r.channel_missing r.channel_dropped alive in
    let accounted : AreAccounted ls r.declared =
      declared_losses_exact losses ls r.declared d r.read_losses j.no_loss_errors in
    let observed : observed_missing_ranges events ≡ ok (r.missing, []) =
      r.observed ∙ ap (λ es. ok (r.missing, es)) j.no_missing_errors in
    record {
      no_errors = ap (λ v. v.errors) r.judged ∙ j.no_errors;
      lost_as_declared = λ x.
          sym (observed-covers-gaps events ns r.missing l observed x)
          ∙ ap (covers x) j.same
          ∙ accounted.covered x;
      declared_once = accounted.once;
      rows_exact = accounted.exact;
      counts_agree =
          ap (λ v. pos v.observed_event_missing_count) r.judged
          ∙ ap (λ rs. pos (range_count rs)) j.same
          ∙ sym accounted.counted
          ∙ sym (ap (λ v. v.declared_event_loss_count) r.judged);
      none_dropped = ap no_drops (ok-injective r.is_object) ∙ j.clean;
    }
  where
    judged_of : IsReading (object fields) events losses frames report → Report
    judged_of r =
        judge r.fields r.missing r.missing_errors r.declared r.event_types r.loss_events
          r.ledger_events r.frame_events r.channel_missing r.channel_dropped
