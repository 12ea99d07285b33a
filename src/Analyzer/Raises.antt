-- ===== src/Analyzer/Raises.antt =====
-- The exceptions of the analyzer's log (scripts/phase3/reconcile_p3b_analyzer.py,
-- `parse_analyzer_log`).
use hpm5321_can_analyzer.Common.{
  ℕ, ◌+◌, ◌≤◌, ◌<◌, ◌≡◌, ◌⊎◌, ◌↔◌, refl, sym, ap, ◌∙◌, inl, inr, true, false, some, List, [], ◌∷◌,
  any, ltb, leb, arith, ◌&&◌, not, ◌||◌, Bool-cases, Option-cases,
}
use hpm5321_can_analyzer.Common.Text.{strip}
use hpm5321_can_analyzer.Common.Python.{
  Result, ok, raised, PyError, value_error, ◌>>=◌, Result-cases,
}
use hpm5321_can_analyzer.Analyzer.Log.{
  Stamp, days_in_month, Match, is_valid, is_separator, digits, match_stamp, match_line, record_of,
  parse_line, parse_lines, parse_analyzer_log,
}

-- The date exists, and so does the time of day.
pub record IsMoment (t : Stamp) : Type 0 where
  pub month : (1 ≤ t.month) × (t.month ≤ 12)
  pub day : (1 ≤ t.day) × (t.day ≤ days_in_month t.year t.month)
  pub time : (t.hour < 24) × (t.minute < 60) × (t.second < 60)

-- A text has one of the codes 28 to 31, which the pattern's `\s` matches.
abbrev pub HasSeparator : List ℕ → Type 0
HasSeparator [] = ⊥
HasSeparator (c ∷ cs) = ((28 ≤ c) × (c ≤ 31)) ⊎ HasSeparator cs

-- The line has the form of the log, but its date or time does not exist, or its payload has a space
-- that is not one of `bytes.fromhex`.
pub record IsBroken (line : List ℕ) : Type 0 where
  pub match : Match
  pub matches : match_line line ≡ some match
  pub defect : ¬ IsMoment match.stamp ⊎ HasSeparator (strip match.payload_text)

-- A line of the log is so.
abbrev pub HasBroken : List (List ℕ) → Type 0
HasBroken [] = ⊥
HasBroken (line ∷ lines) = IsBroken line ⊎ HasBroken lines

-- A chain that raises has raised at one of its steps.
bind_raises :
    {A B : Type 0} {e : PyError} (first : Result A) (next : A → Result B)
    → (first >>= next) ≡ raised e
    → (first ≡ raised e) ⊎ ((a : A) × (next a ≡ raised e))
bind_raises (raised f) next h = inl (cc)
bind_raises (ok a) next h = inr (a, h)

raised-injective : {A : Type 0} {e f : PyError} → ◌≡◌ {A = Result A} (raised e) (raised f) → e ≡ f
raised-injective h = cc

all_tests :
    (a b c d e f : ℕ)
    → (leb 1 a && leb a 12 && leb 1 b && leb b c && ltb d 24 && ltb e 60 && ltb f 60) ≡ true
    → (1 ≤ a) × (a ≤ 12) × (1 ≤ b) × (b ≤ c) × (d < 24) × (e < 60) × (f < 60)
all_tests a b c d e f is = ground arith

valid-IsMoment : (t : Stamp) → is_valid t ≡ true → IsMoment t
valid-IsMoment t h =
    let (m, n, d, e, hour, minute, second) =
      all_tests t.month t.day (days_in_month t.year t.month) t.hour t.minute t.second h in
    record { month = (m, n); day = (d, e); time = (hour, minute, second) }

some_test :
    (a b c d e f : ℕ)
    → (leb 1 a && leb a 12 && leb 1 b && leb b c && ltb d 24 && ltb e 60 && ltb f 60) ≡ false
    → (1 ≤ a) × (a ≤ 12)
    → (1 ≤ b) × (b ≤ c)
    → (d < 24) × (e < 60) × (f < 60)
    → ⊥
some_test a b c d e f is month day time = ground arith

invalid-IsMoment : (t : Stamp) → is_valid t ≡ false → ¬ IsMoment t
invalid-IsMoment t h moment =
    some_test t.month t.day (days_in_month t.year t.month) t.hour t.minute t.second h moment.month
      moment.day moment.time

any-HasSeparator : (cs : List ℕ) → any is_separator cs ≡ true → HasSeparator cs
any-HasSeparator [] h = cc
any-HasSeparator (c ∷ cs) h = elim (Bool-cases (is_separator c)) [
  | inl here ↦ inl (ground arith)
  | inr other ↦ inr (any-HasSeparator cs (ground arith))
]

HasSeparator-any : (cs : List ℕ) → HasSeparator cs → any is_separator cs ≡ true
HasSeparator-any [] h = absurd h
HasSeparator-any (c ∷ cs) (inl h) = ground arith
HasSeparator-any (c ∷ cs) (inr h) = let later = HasSeparator-any cs h in ground arith

one_defect :
    (m : Match)
    → (not (is_valid m.stamp) || any is_separator (strip m.payload_text)) ≡ true
    → ¬ IsMoment m.stamp ⊎ HasSeparator (strip m.payload_text)
one_defect m h = elim (Bool-cases (is_valid m.stamp)) [
  | inr bad ↦ inl (invalid-IsMoment m.stamp bad)
  | inl good ↦ inr (any-HasSeparator (strip m.payload_text) (rw good at h))
]

any_defect :
    (m : Match)
    → ¬ IsMoment m.stamp ⊎ HasSeparator (strip m.payload_text)
    → (not (is_valid m.stamp) || any is_separator (strip m.payload_text)) ≡ true
any_defect m defect = elim (Bool-cases (is_valid m.stamp)) [
  | inr bad ↦ rw bad refl
  | inl good ↦ elim defect [
    | inl never ↦ absurd (never (valid-IsMoment m.stamp good))
    | inr h ↦ rw good (HasSeparator-any (strip m.payload_text) h)
  ]
]

record_of-raises :
    (m : Match) (e : PyError)
    → record_of m ≡ raised e
    → (e ≡ value_error) × (¬ IsMoment m.stamp ⊎ HasSeparator (strip m.payload_text))
unfolding record_of
record_of-raises m e h =
    let separated = any is_separator (strip m.payload_text) in
    elim (Bool-cases (not (is_valid m.stamp) || separated)) [
      | inl bad ↦ (sym (raised-injective (rw (bad, record_of) at h)), one_defect m bad)
      | inr good ↦ let h' = rw (good, record_of) at h in cc
    ]

parse_line-raises :
    (number : ℕ) (line : List ℕ) (e : PyError)
    → parse_line number line ≡ raised e
    → (e ≡ value_error) × IsBroken line
unfolding parse_line
parse_line-raises number [] e h = cc
parse_line-raises number (c ∷ cs) e h = elim (Option-cases (match_line (c ∷ cs))) [
  | inl none_matches ↦ let h' = rw (none_matches, parse_line) at h in cc
  | inr (m, is) ↦ elim (bind_raises (record_of m) _ (rw (is, parse_line) at h)) [
    | inl r ↦
        let found = record_of-raises m e r in
        (found.0, record { match = m; matches = is; defect = found.1 })
    | inr (r, impossible) ↦ cc
  ]
]

parse_lines-raises :
    (number : ℕ) (lines : List (List ℕ)) (e : PyError)
    → parse_lines number lines ≡ raised e
    → (e ≡ value_error) × HasBroken lines
unfolding parse_lines
parse_lines-raises number [] e h = cc
parse_lines-raises number (line ∷ lines) e h = elim (bind_raises (parse_line number line) _ h) [
  | inl here ↦ let b = parse_line-raises number line e here in (b.0, inl b.1)
  | inr (found, h1) ↦ elim (bind_raises (parse_lines (number + 1) lines) _ h1) [
    | inl later ↦ let b = parse_lines-raises (number + 1) lines e later in (b.0, inr b.1)
    | inr (rest, h2) ↦ cc
  ]
]

broken_line-raises :
    (number : ℕ) (line : List ℕ) → IsBroken line → parse_line number line ≡ raised value_error
unfolding parse_line match_line match_stamp digits record_of
broken_line-raises number [] b = let h = b.matches in cc
broken_line-raises number (c ∷ cs) b =
    let m = b.match in
    let bad = any_defect m b.defect in rw (b.matches, bad, parse_line, record_of) refl

broken_lines-raise :
    (number : ℕ) (lines : List (List ℕ))
    → HasBroken lines
    → parse_lines number lines ≡ raised value_error
unfolding parse_lines
broken_lines-raise number [] h = absurd h
broken_lines-raise number (line ∷ lines) (inl b) = rw (broken_line-raises number line b) refl
broken_lines-raise number (line ∷ lines) (inr h) = elim (Result-cases (parse_line number line)) [
  | inl (found, is) ↦ rw (is, broken_lines-raise (number + 1) lines h) refl
  | inr (e, is) ↦ let b = parse_line-raises number line e is in rw is (ap raised b.0)
]

-- A log that can be read raises an exception exactly if some line has the form of the log with a
-- date or a time that does not exist, or with a space in its payload that `bytes.fromhex` does not
-- take; the exception is a ValueError.
pub parse_analyzer_log-raises_iff :
    (lines : List (List ℕ)) (e : PyError)
    → (parse_analyzer_log (some lines) ≡ raised e) ↔ (e ≡ value_error) × HasBroken lines
unfolding parse_analyzer_log
parse_analyzer_log-raises_iff lines e =
    (parse_lines-raises 1 lines e, λ h. broken_lines-raise 1 lines h.1 ∙ ap raised (sym h.0))
