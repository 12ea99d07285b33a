-- ===== src/Heartbeat/Printed.antt =====
-- The record that the collector tells GDB to print (scripts/phase2/collect_heartbeat.py,
-- `_sample_target`), in C's printf formats.
use hpm5321_can_analyzer.Common.{
  ℕ, zero, suc, ◌+◌, ◌-◌, ◌/◌, ◌%◌, ◌^◌, ◌<◌, String, List, [], ◌∷◌, ◌++◌, ltb, if◌then◌else◌,
}
use hpm5321_can_analyzer.Common.Int.{ℤ, pos, negsuc}
use hpm5321_can_analyzer.Common.Text.{codes}
use hpm5321_can_analyzer.Heartbeat.Sample.{Field, Sample}

-- C's `%u` and `%llu`. The fuel is the number itself.
unfoldable pub print_from : (fuel n : ℕ) → List ℕ
print_from zero n = (b'0' + n) ∷ []
print_from (suc f) n =
    let front = print_from f (n / 10) in
    if ltb n 10 then (b'0' + n) ∷ [] else front ++ (b'0' + n % 10) ∷ []

abbrev pub print_decimal : ℕ → List ℕ
print_decimal n = print_from n n

abbrev pub hex_char : ℕ → ℕ
hex_char d = if ltb d 10 then b'0' + d else b'a' + d - 10

-- `width` hexadecimal digits; C's `%08x` prints eight for a 32-bit number.
unfoldable pub print_hex : (width n : ℕ) → List ℕ
print_hex zero n = []
print_hex (suc w) n = print_hex w (n / 16) ++ hex_char (n % 16) ∷ []

-- `%d`
abbrev pub print_signed : ℤ → List ℕ
print_signed (pos n) = print_decimal n
print_signed (negsuc n) = b'-' ∷ print_decimal (suc n)

-- `%08x`, `%u`, `%llu` and `%d`
pub data Conversion : Type 0 where
  percent_08x percent_u percent_llu percent_d : Conversion

abbrev pub print_conversion : Conversion → ℤ → List ℕ
print_conversion percent_08x (pos n) = print_hex 8 n
print_conversion percent_08x (negsuc n) = []
print_conversion percent_u (pos n) = print_decimal n
print_conversion percent_u (negsuc n) = []
print_conversion percent_llu (pos n) = print_decimal n
print_conversion percent_llu (negsuc n) = []
print_conversion percent_d v = print_signed v

-- The format, cut before each conversion's text: the text and the conversion behind it.
abbrev pub formats : List (String × Conversion)
formats =
    ("P2_SAMPLE boot=", percent_08x)
    ∷ (" boot_tick=", percent_llu)
    ∷ (" reset=", percent_08x)
    ∷ (" heartbeat=", percent_u)
    ∷ (" drops=", percent_u)
    ∷ (" stack=", percent_u)
    ∷ (" tick=", percent_llu)
    ∷ (" fault_magic=", percent_08x)
    ∷ (" fault_reason=", percent_u)
    ∷ (" evaluations=", percent_u)
    ∷ (" healthy=", percent_u)
    ∷ (" missing=", percent_08x)
    ∷ (" stall=", percent_08x)
    ∷ (" alloc_frozen=", percent_u)
    ∷ (" allocations=", percent_u)
    ∷ (" post_freeze_allocations=", percent_u)
    ∷ (" mcan_magic=", percent_08x)
    ∷ (" mcan_priority=", percent_u)
    ∷ (" mcan_irqs=", percent_u)
    ∷ (" mcan_submitted=", percent_u)
    ∷ (" mcan_received=", percent_u)
    ∷ (" mcan_matched=", percent_u)
    ∷ (" mcan_queue_sends=", percent_u)
    ∷ (" mcan_queue_drops=", percent_u)
    ∷ (" mcan_errors=", percent_08x)
    ∷ (" mcan_terminal_faults=", percent_08x)
    ∷ (" mcan_tx_errors=", percent_u)
    ∷ (" mcan_rx_errors=", percent_u)
    ∷ (" mcan_error_log=", percent_u)
    ∷ (" mcan_mismatches=", percent_u)
    ∷ (" mcan_timeouts=", percent_u)
    ∷ (" mcan_stack=", percent_u)
    ∷ (" mcan_cleanup_status=", percent_d)
    ∷ (" mcan_cccr=", percent_08x)
    ∷ (" mcan_cleanup=", percent_u)
    ∷ []

-- The values in the format, up to its newline.
unfoldable pub print_format : List (String × Conversion) → List ℤ → List ℕ
print_format [] vs = 10 ∷ []
print_format (f ∷ fs) [] = []
print_format ((text, conversion) ∷ fs) (v ∷ vs) =
    codes text ++ (print_conversion conversion v ++ print_format fs vs)

-- The values in the order of the format.
abbrev pub values : Sample → List ℤ
values s =
    s Field.boot
    ∷ s Field.boot_tick
    ∷ s Field.reset
    ∷ s Field.heartbeat
    ∷ s Field.drops
    ∷ s Field.stack
    ∷ s Field.tick
    ∷ s Field.fault_magic
    ∷ s Field.fault_reason
    ∷ s Field.evaluations
    ∷ s Field.healthy
    ∷ s Field.missing
    ∷ s Field.stall
    ∷ s Field.alloc_frozen
    ∷ s Field.allocations
    ∷ s Field.post_freeze_allocations
    ∷ s Field.mcan_magic
    ∷ s Field.mcan_priority
    ∷ s Field.mcan_irqs
    ∷ s Field.mcan_submitted
    ∷ s Field.mcan_received
    ∷ s Field.mcan_matched
    ∷ s Field.mcan_queue_sends
    ∷ s Field.mcan_queue_drops
    ∷ s Field.mcan_errors
    ∷ s Field.mcan_terminal_faults
    ∷ s Field.mcan_tx_errors
    ∷ s Field.mcan_rx_errors
    ∷ s Field.mcan_error_log
    ∷ s Field.mcan_mismatches
    ∷ s Field.mcan_timeouts
    ∷ s Field.mcan_stack
    ∷ s Field.mcan_cleanup_status
    ∷ s Field.mcan_cccr
    ∷ s Field.mcan_cleanup
    ∷ []

-- The printed record.
unfoldable pub print_sample : Sample → List ℕ
print_sample s = print_format formats (values s)

-- What a conversion can print: an unsigned or a signed number of its width.
abbrev pub Fits : Conversion → ℤ → Type 0
Fits percent_08x (pos n) = n < 2 ^ 32
Fits percent_08x (negsuc n) = ⊥
Fits percent_u (pos n) = n < 2 ^ 32
Fits percent_u (negsuc n) = ⊥
Fits percent_llu (pos n) = n < 2 ^ 64
Fits percent_llu (negsuc n) = ⊥
Fits percent_d (pos n) = n < 2 ^ 31
Fits percent_d (negsuc n) = n < 2 ^ 31

abbrev pub AllFit : List (String × Conversion) → List ℤ → Type 0
AllFit [] [] = Unit
AllFit ((text, conversion) ∷ fs) (v ∷ vs) = Fits conversion v × AllFit fs vs
AllFit [] (v ∷ vs) = ⊥
AllFit (f ∷ fs) [] = ⊥
