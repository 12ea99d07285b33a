-- ===== src/Analyzer/Log.antt =====
-- The analyzer's log (scripts/phase3/reconcile_p3b_analyzer.py, `parse_analyzer_log`). A line is a
-- list of ASCII codes, as `splitlines` gives them.
use hpm5321_can_analyzer.Common.{
  ℕ, zero, suc, ◌+◌, ◌-◌, ◌*◌, ◌/◌, ◌%◌, String, Bool, true, false, not, ◌&&◌, ◌||◌, Option, none,
  some, List, [], ◌∷◌, ◌++◌, length, any, ltb, leb, ◌==◌, if◌then◌else◌,
}
use hpm5321_can_analyzer.Common.Int.{ℤ, sub_ℕ}
use hpm5321_can_analyzer.Common.Text.{codes, is_digit, is_space, strip}
use hpm5321_can_analyzer.Common.Python.{Result, ok, raised, value_error, ◌>>=◌}

pub data Direction : Type 0 where
  send recv : Direction

pub record LogRecord : Type 0 where
  pub timestamp_ns : ℤ
  pub direction : Direction
  pub arbitration_id : ℕ
  pub payload_hex : List ℕ
  pub dlc : ℕ

pub data AnalyzerError : Type 0 where
  unreadable_log unreadable_frames bad_header unreadable_window bad_window : AnalyzerError
  invalid_line invalid_row : (number : ℕ) → AnalyzerError
  no_records no_frames frame_count span_count not_increasing not_send id_differs dlc_differs
        payload_differs rates_differ no_bracket summary_unreadable summary_not_object :
      AnalyzerError
  nonzero : (name : String) → AnalyzerError

-- `Option`'s own chain.
infixl 5 ◌then◌
abbrev ◌then◌ : {A B : Type 0} → Option A → (A → Option B) → Option B
none then f = none
some a then f = f a

-- `\d{count}`, and the rest of the line.
unfoldable pub digits : (count acc : ℕ) → List ℕ → Option (ℕ × List ℕ)
digits zero acc cs = some (acc, cs)
digits (suc n) acc [] = none
digits (suc n) acc (c ∷ cs) =
    let rest = digits n (acc * 10 + (c - 48)) cs in if is_digit c then rest else none

unfoldable pub literal : List ℕ → List ℕ → Option (List ℕ)
literal [] cs = some cs
literal (l ∷ ls) [] = none
literal (l ∷ ls) (c ∷ cs) = let rest = literal ls cs in if l == c then rest else none

-- The value of a hexadecimal digit.
abbrev pub hex_digit : ℕ → Option ℕ
hex_digit c =
    if is_digit c
    then some (c - 48)
    else if leb 65 c && leb c 70
    then some (c - 55)
    else if leb 97 c && leb c 102
    then some (c - 87)
    else none

-- `[0-9A-Fa-f]+` and the rest; `after` says that a digit stands before.
unfoldable pub hex_run : (acc : ℕ) (after : Bool) → List ℕ → Option (ℕ × List ℕ)
hex_run acc after [] = if after then some (acc, []) else none
hex_run acc after (c ∷ cs) = elim (hex_digit c) [
  | some v ↦ hex_run (acc * 16 + v) true cs
  | none ↦ if after then some (acc, c ∷ cs) else none
]

-- Where the match of the payload stands: no space since the last byte, a space, or half a byte.
pub data Place : Type 0 where
  tight spaced : Place
  half : (high : ℕ) → Place

-- `(?:\s+[0-9A-Fa-f]{2})*\s*$`, as the bytes.
unfoldable pub payload_bytes : Place → List ℕ → Option (List ℕ)
payload_bytes (half high) [] = none
payload_bytes tight [] = some []
payload_bytes spaced [] = some []
payload_bytes tight (c ∷ cs) =
    let rest = payload_bytes spaced cs in if is_space c then rest else none
payload_bytes spaced (c ∷ cs) = elim (hex_digit c) [
  | some v ↦ payload_bytes (half v) cs
  | none ↦ let rest = payload_bytes spaced cs in if is_space c then rest else none
]
payload_bytes (half high) (c ∷ cs) = elim (hex_digit c) [
  | some v ↦ elim (payload_bytes tight cs) [
    | none ↦ none
    | some bytes ↦ some ((high * 16 + v) ∷ bytes)
  ]
  | none ↦ none
]

-- The spaces that `bytes.fromhex` does not skip.
abbrev pub is_separator : ℕ → Bool
is_separator c = leb 28 c && leb c 31

abbrev pub hex_code : ℕ → ℕ
hex_code v = if ltb v 10 then v + 48 else v + 55

-- `payload.hex().upper()`
abbrev pub hex_text : List ℕ → List ℕ
hex_text [] = []
hex_text (b ∷ bs) = hex_code (b / 16) ∷ hex_code (b % 16) ∷ hex_text bs

pub record Stamp : Type 0 where
  pub year : ℕ
  pub month : ℕ
  pub day : ℕ
  pub hour : ℕ
  pub minute : ℕ
  pub second : ℕ
  pub millisecond : ℕ

abbrev pub is_leap : ℕ → Bool
is_leap year = year % 4 == 0 && (not (year % 100 == 0) || year % 400 == 0)

abbrev pub days_in_month : (year month : ℕ) → ℕ
days_in_month year month =
    if month == 2
    then (if is_leap year then 29 else 28)
    else if month == 4 || month == 6 || month == 9 || month == 11
    then 30
    else 31

-- The days of the year before a month.
abbrev pub days_before_month : (year month : ℕ) → ℕ
days_before_month year zero = 0
days_before_month year (suc zero) = 0
days_before_month year (suc (suc m)) = days_before_month year (suc m) + days_in_month year (suc m)

-- The number of a day, where 1 January of the year 1 is 1.
abbrev pub ordinal : (year month day : ℕ) → ℕ
ordinal year month day =
    let before = year - 1 in
    before * 365 + before / 4 - before / 100 + before / 400 + days_before_month year month + day

-- `datetime.strptime` takes the two digits of a year from 69 on to be of the last century.
abbrev pub full_year : ℕ → ℕ
full_year y = if leb 69 y then 1900 + y else 2000 + y

abbrev pub is_valid : Stamp → Bool
is_valid t =
    leb 1 t.month
    && leb t.month 12
    && leb 1 t.day
    && leb t.day (days_in_month t.year t.month)
    && ltb t.hour 24
    && ltb t.minute 60
    && ltb t.second 60

-- Nanoseconds since the epoch, of a local time of UTC+08:00; 719163 is the day of the epoch.
abbrev pub epoch_ns : Stamp → ℤ
epoch_ns t =
    sub_ℕ
      ((ordinal t.year t.month t.day * 86400 + t.hour * 3600 + t.minute * 60 + t.second)
          * 1000000000
        + t.millisecond * 1000000)
      ((719163 * 86400 + 28800) * 1000000000)

-- The groups of the pattern: the time, the direction, the identifier, the text of the payload and
-- its bytes.
pub record Match : Type 0 where
  pub stamp : Stamp
  pub direction : Direction
  pub identifier : ℕ
  pub payload_text : List ℕ
  pub payload : List ℕ

unfoldable pub direction_of : List ℕ → Option (Direction × List ℕ)
unfolding literal
direction_of cs = elim (literal (codes "Send[") cs) [
  | some rest ↦ some (send, rest)
  | none ↦ elim (literal (codes "Recv[") cs) [ some rest ↦ some (recv, rest) | none ↦ none ]
]

unfoldable pub match_stamp : List ℕ → Option (Stamp × List ℕ)
unfolding digits literal
match_stamp cs = digits 2 0 cs then λ year. literal (codes "-") year.1 then λ cs.
    digits 2 0 cs then λ month. literal (codes "-") month.1 then λ cs. digits 2 0 cs then λ day.
    literal (codes " ") day.1 then λ cs. digits 2 0 cs then λ hour.
    literal (codes ":") hour.1 then λ cs. digits 2 0 cs then λ minute.
    literal (codes ":") minute.1 then λ cs. digits 2 0 cs then λ second.
    literal (codes ".") second.1 then λ cs. digits 3 0 cs then λ fraction.
    literal (codes " ") fraction.1 then λ cs. some (
      record {
        year = full_year year.0;
        month = month.0;
        day = day.0;
        hour = hour.0;
        minute = minute.0;
        second = second.0;
        millisecond = fraction.0;
      },
      cs,
    )

-- `ANALYZER_LINE.fullmatch(line)`
unfoldable pub match_line : List ℕ → Option Match
unfolding match_stamp direction_of hex_run literal payload_bytes
match_line line = match_stamp line then λ stamp. direction_of stamp.1 then λ direction.
    hex_run 0 false direction.1 then λ identifier. literal (codes "]:") identifier.1 then λ text.
    payload_bytes tight text then λ bytes. some (record {
      stamp = stamp.0;
      direction = direction.0;
      identifier = identifier.0;
      payload_text = text;
      payload = bytes;
    })

-- The record of a match: `strptime` and `bytes.fromhex` can raise a ValueError.
unfoldable pub record_of : Match → Result LogRecord
unfolding strip
record_of m =
    if not (is_valid m.stamp) || any is_separator (strip m.payload_text)
    then raised value_error
    else ok (record {
      timestamp_ns = epoch_ns m.stamp;
      direction = m.direction;
      arbitration_id = m.identifier;
      payload_hex = hex_text m.payload;
      dlc = length m.payload;
    })

unfoldable pub parse_line : (number : ℕ) → List ℕ → Result (List LogRecord × List AnalyzerError)
unfolding match_line record_of
parse_line number [] = ok ([], [])
parse_line number (c ∷ cs) = elim (match_line (c ∷ cs)) [
  | none ↦ ok ([], invalid_line number ∷ [])
  | some m ↦ record_of m >>= λ r. ok (r ∷ [], [])
]

unfoldable pub parse_lines :
    (number : ℕ) → List (List ℕ) → Result (List LogRecord × List AnalyzerError)
unfolding parse_line
parse_lines number [] = ok ([], [])
parse_lines number (line ∷ lines) = do
  here ← parse_line number line
  rest ← parse_lines (number + 1) lines
  ok (here.0 ++ rest.0, here.1 ++ rest.1)

-- `none` is a file that cannot be read.
unfoldable pub parse_analyzer_log :
    Option (List (List ℕ)) → Result (List LogRecord × List AnalyzerError)
unfolding parse_lines
parse_analyzer_log none = ok ([], unreadable_log ∷ [])
parse_analyzer_log (some lines) = parse_lines 1 lines
