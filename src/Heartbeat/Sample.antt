-- ===== src/Heartbeat/Sample.antt =====
-- One record of the target's state (scripts/phase2/collect_heartbeat.py, SAMPLE_PATTERN and
-- `parse_sample`). The pattern is read from left to right with no choice: no character class of it
-- holds the space or the letter that follows it.
use hpm5321_can_analyzer.Common.{
  ℕ, zero, suc, ◌+◌, ◌-◌, ◌*◌, String, Bool, true, false, ◌&&◌, ◌||◌, Option, none, some, List, [],
  ◌∷◌, leb, ◌==◌, if◌then◌else◌,
}
use hpm5321_can_analyzer.Common.Int.{ℤ, pos, sub_ℕ}
use hpm5321_can_analyzer.Common.Text.{codes, is_digit}

-- The named groups of the pattern.
pub data Field : Type 0 where
  boot boot_tick reset heartbeat drops stack tick fault_magic fault_reason evaluations healthy
        missing stall alloc_frozen allocations post_freeze_allocations mcan_magic mcan_priority
        mcan_irqs mcan_submitted mcan_received mcan_matched mcan_queue_sends mcan_queue_drops
        mcan_errors mcan_terminal_faults mcan_tx_errors mcan_rx_errors mcan_error_log
        mcan_mismatches mcan_timeouts mcan_stack mcan_cleanup_status mcan_cccr mcan_cleanup :
      Field

pub data Kind : Type 0 where
  hex decimal signed : Kind

-- `sample[name]`
abbrev pub Sample : Type 0
Sample = Field → ℤ

-- The groups in the pattern's order, each with the text before it and its digits.
abbrev pub groups : List (String × Kind)
groups =
    ("boot=", hex)
    ∷ ("boot_tick=", decimal)
    ∷ ("reset=", hex)
    ∷ ("heartbeat=", decimal)
    ∷ ("drops=", decimal)
    ∷ ("stack=", decimal)
    ∷ ("tick=", decimal)
    ∷ ("fault_magic=", hex)
    ∷ ("fault_reason=", decimal)
    ∷ ("evaluations=", decimal)
    ∷ ("healthy=", decimal)
    ∷ ("missing=", hex)
    ∷ ("stall=", hex)
    ∷ ("alloc_frozen=", decimal)
    ∷ ("allocations=", decimal)
    ∷ ("post_freeze_allocations=", decimal)
    ∷ ("mcan_magic=", hex)
    ∷ ("mcan_priority=", decimal)
    ∷ ("mcan_irqs=", decimal)
    ∷ ("mcan_submitted=", decimal)
    ∷ ("mcan_received=", decimal)
    ∷ ("mcan_matched=", decimal)
    ∷ ("mcan_queue_sends=", decimal)
    ∷ ("mcan_queue_drops=", decimal)
    ∷ ("mcan_errors=", hex)
    ∷ ("mcan_terminal_faults=", hex)
    ∷ ("mcan_tx_errors=", decimal)
    ∷ ("mcan_rx_errors=", decimal)
    ∷ ("mcan_error_log=", decimal)
    ∷ ("mcan_mismatches=", decimal)
    ∷ ("mcan_timeouts=", decimal)
    ∷ ("mcan_stack=", decimal)
    ∷ ("mcan_cleanup_status=", signed)
    ∷ ("mcan_cccr=", hex)
    ∷ ("mcan_cleanup=", decimal)
    ∷ []

abbrev pub is_hex_digit : ℕ → Bool
is_hex_digit c = is_digit c || leb b'a' c && leb c b'f' || leb b'A' c && leb c b'F'

abbrev pub digit_value : ℕ → ℕ
digit_value c = if is_digit c then c - b'0' else if leb b'a' c then c - b'a' + 10 else c - b'A' + 10

infixl 5 ◌>>=◌
abbrev pub ◌>>=◌ : {A B : Type 0} → Option A → (A → Option B) → Option B
none >>= f = none
some a >>= f = f a

-- A literal stands at the front; `some rest` is what follows it.
unfoldable pub literal : List ℕ → List ℕ → Option (List ℕ)
literal [] cs = some cs
literal (l ∷ ls) [] = none
literal (l ∷ ls) (c ∷ cs) = if l == c then literal ls cs else none

-- The value of the longest run of digits at the front, in base `base`, and what follows it.
-- `found` says that a digit has been read.
unfoldable pub digits :
    (is_one : ℕ → Bool) (base acc : ℕ) (found : Bool) → List ℕ → Option (ℕ × List ℕ)
digits is_one base acc found [] = if found then some (acc, []) else none
digits is_one base acc found (c ∷ cs) = elim (is_one c) [
  | true ↦ digits is_one base (acc * base + digit_value c) true cs
  | false ↦ if found then some (acc, c ∷ cs) else none
]

abbrev pub as_positive : Option (ℕ × List ℕ) → Option (ℤ × List ℕ)
as_positive none = none
as_positive (some (n, rest)) = some (pos n, rest)

abbrev pub as_negative : Option (ℕ × List ℕ) → Option (ℤ × List ℕ)
as_negative none = none
as_negative (some (n, rest)) = some (sub_ℕ 0 n, rest)

abbrev pub signed_number : List ℕ → Option (ℤ × List ℕ)
signed_number [] = none
signed_number (c ∷ cs) =
    if c == b'-'
    then as_negative (digits is_digit 10 0 false cs)
    else as_positive (digits is_digit 10 0 false (c ∷ cs))

-- One group, as the number that `parse_sample` takes it for.
unfoldable pub number : Kind → List ℕ → Option (ℤ × List ℕ)
number hex cs = as_positive (digits is_hex_digit 16 0 false cs)
number decimal cs = as_positive (digits is_digit 10 0 false cs)
number signed cs = signed_number cs

-- The groups, each behind its literal; `before` is the space between two of them.
unfoldable pub match_groups : (before : List ℕ) → List (String × Kind) → List ℕ → Option (List ℤ)
match_groups before [] cs = some []
match_groups before ((name, kind) ∷ rest) cs = do
  after_space ← literal before cs
  digits_at ← literal (codes name) after_space
  (value, after) ← number kind digits_at
  values ← match_groups (codes " ") rest after
  some (value ∷ values)

-- `SAMPLE_PATTERN.search`: the first position at which the pattern matches.
unfoldable pub search_groups : List ℕ → Option (List ℤ)
search_groups [] = none
search_groups (c ∷ cs) =
    let later = search_groups cs in
    elim (match_groups (codes "P2_SAMPLE ") groups (c ∷ cs)) [
      | some values ↦ some values
      | none ↦ later
    ]

abbrev pub nth : List ℤ → ℕ → ℤ
nth [] i = pos 0
nth (v ∷ vs) zero = v
nth (v ∷ vs) (suc i) = nth vs i

abbrev pub index : Field → ℕ
index boot = 0
index boot_tick = 1
index reset = 2
index heartbeat = 3
index drops = 4
index stack = 5
index tick = 6
index fault_magic = 7
index fault_reason = 8
index evaluations = 9
index healthy = 10
index missing = 11
index stall = 12
index alloc_frozen = 13
index allocations = 14
index post_freeze_allocations = 15
index mcan_magic = 16
index mcan_priority = 17
index mcan_irqs = 18
index mcan_submitted = 19
index mcan_received = 20
index mcan_matched = 21
index mcan_queue_sends = 22
index mcan_queue_drops = 23
index mcan_errors = 24
index mcan_terminal_faults = 25
index mcan_tx_errors = 26
index mcan_rx_errors = 27
index mcan_error_log = 28
index mcan_mismatches = 29
index mcan_timeouts = 30
index mcan_stack = 31
index mcan_cleanup_status = 32
index mcan_cccr = 33
index mcan_cleanup = 34

-- `none` is the RuntimeError for output without a record.
unfoldable pub parse_sample : List ℕ → Option Sample
parse_sample output = elim (search_groups output) [
  | none ↦ none
  | some values ↦ some (λ f. nth values (index f))
]
