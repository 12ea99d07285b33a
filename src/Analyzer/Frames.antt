-- ===== src/Analyzer/Frames.antt =====
-- The device's frames and the measurement window (scripts/phase3/reconcile_p3b_analyzer.py,
-- `parse_frames` and `measurement_window`).
use text.Mathlib.Text.{◌==◌ as str_eq}
use hpm5321_can_analyzer.Common.{
  ℕ, ◌+◌, ◌-◌, String, Bool, true, false, ◌&&◌, Option, none, some, List, [], ◌∷◌, ◌++◌, map, leb,
  if◌then◌else◌,
}
use hpm5321_can_analyzer.Common.Int.{ℤ, pos, leb_ℤ}
use hpm5321_can_analyzer.Common.Text.{codes}
use hpm5321_can_analyzer.Common.Python.{
  Result, ok, raised, PyError, key_error, value_error, type_error, attribute_error, os_error, ◌>>=◌,
  Row, cell, int_field,
}
use hpm5321_can_analyzer.Analyzer.Log.{
  AnalyzerError, unreadable_frames, bad_header, invalid_row, unreadable_window, bad_window,
}

pub record Frame : Type 0 where
  pub host_ingest_ns : ℤ
  pub channel_sequence : ℤ
  pub arbitration_id : ℤ
  pub dlc : ℤ
  pub device_drop_total : ℤ
  pub event_sequence : ℤ
  pub payload_hex : List ℕ

-- How the reading of a table ends: at the end of the file, or by an exception, which is `os_error`,
-- `value_error` for a text that is not ASCII, or `csv_error`.
pub data Ending : Type 0 where
  complete : Ending
  broken_off : PyError → Ending

-- The header, the rows, and what comes after them; an empty file has an empty header.
pub record Csv : Type 0 where
  pub fieldnames : Result (List String)
  pub rows : List Row
  pub ending : Ending

abbrev pub expected : List String
expected =
    "host_ingest_ns" ∷ "device_tick" ∷ "channel_sequence" ∷ "arbitration_id" ∷ "flags" ∷ "dlc"
    ∷ "device_drop_total" ∷ "event_sequence" ∷ "payload_hex" ∷ []

unfoldable pub names_eq : List String → List String → Bool
names_eq [] [] = true
names_eq (m ∷ ms) (n ∷ ns) = str_eq m n && names_eq ms ns
names_eq (m ∷ ms) [] = false
names_eq [] (n ∷ ns) = false

-- `str.upper()` on ASCII.
abbrev pub upper : ℕ → ℕ
upper c = if leb 97 c && leb c 122 then c - 32 else c

-- `value.upper()`: None has no such method.
abbrev pub upper_text : Option String → Result (List ℕ)
upper_text none = raised attribute_error
upper_text (some s) = ok (map upper (codes s))

unfoldable pub frame_of : Row → Result Frame
unfolding int_field cell
frame_of row = do
  host ← int_field row "host_ingest_ns"
  channel ← int_field row "channel_sequence"
  identifier ← int_field row "arbitration_id"
  dlc ← int_field row "dlc"
  drops ← int_field row "device_drop_total"
  event ← int_field row "event_sequence"
  payload ← cell row "payload_hex"
  text ← upper_text payload
  ok (record {
    host_ingest_ns = host;
    channel_sequence = channel;
    arbitration_id = identifier;
    dlc = dlc;
    device_drop_total = drops;
    event_sequence = event;
    payload_hex = text;
  })

-- `except (KeyError, TypeError, ValueError)`
abbrev pub is_row_error : PyError → Bool
is_row_error key_error = true
is_row_error type_error = true
is_row_error value_error = true
is_row_error _ = false

unfoldable pub parse_row : (number : ℕ) → Row → Result (List Frame × List AnalyzerError)
unfolding frame_of
parse_row number row = elim (frame_of row) [
  | ok frame ↦ ok (frame ∷ [], [])
  | raised e ↦ if is_row_error e then ok ([], invalid_row number ∷ []) else raised e
]

unfoldable pub parse_rows : (number : ℕ) → List Row → Result (List Frame × List AnalyzerError)
unfolding parse_row
parse_rows number [] = ok ([], [])
parse_rows number (row ∷ rows) = do
  here ← parse_row number row
  rest ← parse_rows (number + 1) rows
  ok (here.0 ++ rest.0, here.1 ++ rest.1)

-- `except OSError` round the whole.
abbrev pub is_os_error : PyError → Bool
is_os_error os_error = true
is_os_error _ = false

-- What the end of the reading makes of the rows.
unfoldable pub frames_end :
    Ending → (found : List Frame × List AnalyzerError) → Result (List Frame × List AnalyzerError)
frames_end complete found = ok found
frames_end (broken_off e) found =
    if is_os_error e then ok (found.0, found.1 ++ unreadable_frames ∷ []) else raised e

-- `none` is a file that cannot be opened, or whose header gives an OSError.
unfoldable pub parse_frames : Option Csv → Result (List Frame × List AnalyzerError)
unfolding parse_rows names_eq frames_end
parse_frames none = ok ([], unreadable_frames ∷ [])
parse_frames (some csv) = do
  names ← csv.fieldnames
  if names_eq names expected
      then (do found ← parse_rows 2 csv.rows; frames_end csv.ending found)
      else ok ([], bad_header ∷ [])

-- `row.get("phase") == phase`
unfoldable pub in_phase : String → Row → Bool
unfolding cell
in_phase phase row = elim (cell row "phase") [
  | raised e ↦ false
  | ok value ↦ elim value [ none ↦ false | some text ↦ str_eq text phase ]
]

-- The starts and the ends.
unfoldable pub marks : List Row → Result (List ℤ × List ℤ)
unfolding in_phase int_field
marks [] = ok ([], [])
marks (row ∷ rows) =
    if in_phase "measurement_start" row
    then (do at ← int_field row "host_poll_ns"; rest ← marks rows; ok (at ∷ rest.0, rest.1))
    else if in_phase "measurement_end" row
    then (do at ← int_field row "host_poll_ns"; rest ← marks rows; ok (rest.0, at ∷ rest.1))
    else marks rows

pub record Window : Type 0 where
  pub start_ns : ℤ
  pub end_ns : ℤ
  pub errors : List AnalyzerError

abbrev pub no_window : AnalyzerError → Window
no_window e = record { start_ns = pos 0; end_ns = pos 0; errors = e ∷ [] }

abbrev pub window_of : List ℤ → List ℤ → Window
window_of (start ∷ []) (end ∷ []) =
    if leb_ℤ end start
    then no_window bad_window
    else record { start_ns = start; end_ns = end; errors = [] }
window_of _ _ = no_window bad_window

-- `except (OSError, KeyError, TypeError, ValueError)`
abbrev pub is_window_error : PyError → Bool
is_window_error os_error = true
is_window_error e = is_row_error e

abbrev pub unless_noted : PyError → Result Window
unless_noted e = if is_window_error e then ok (no_window unreadable_window) else raised e

-- The rows of `csv.DictReader`, and how the reading ends.
unfoldable pub measurement_window : List Row × Ending → Result Window
unfolding marks
measurement_window (rows, ending) = elim (marks rows) [
  | raised e ↦ unless_noted e
  | ok found ↦ elim ending [
    | complete ↦ ok (window_of found.0 found.1)
    | broken_off e ↦ unless_noted e
  ]
]
