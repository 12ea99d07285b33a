-- ===== src/Heartbeat/Numbers.antt =====
-- Numbers printed by GDB and read by the groups of the pattern
-- (scripts/phase2/collect_heartbeat.py, `_sample_target` and `parse_sample`).
use hpm5321_can_analyzer.Common.{
  ℕ, zero, suc, ◌+◌, ◌*◌, ◌/◌, ◌%◌, ◌^◌, ◌≤◌, ◌<◌, ◌≡◌, refl, ◌∙◌, ap, Bool, true, false, some,
  List, [], ◌∷◌, ◌++◌, arith, ltb, Bool-cases, inl, inr,
}
use native.Mathlib.Nat.{pow-suc}
use mathlib.Core.List.{append_assoc}
use hpm5321_can_analyzer.Common.Int.{ℤ, pos, negsuc, sub_ℕ}
use hpm5321_can_analyzer.Common.Text.{is_digit}
use hpm5321_can_analyzer.Heartbeat.Sample.{
  Kind, hex, decimal, signed, is_hex_digit, digit_value, digits, number, as_positive, as_negative,
  signed_number,
}
use hpm5321_can_analyzer.Heartbeat.Printed.{
  print_from, print_decimal, hex_char, print_hex, Conversion, percent_08x, percent_u, percent_llu,
  percent_d, print_conversion, Fits,
}

-- No digit stands at the front.
abbrev pub Stops : List ℕ → Type 0
Stops [] = Unit
Stops (c ∷ cs) = is_hex_digit c ≡ false

-- The digits of the pattern's group that reads a conversion.
abbrev pub kind_of : Conversion → Kind
kind_of percent_08x = hex
kind_of percent_u = decimal
kind_of percent_llu = decimal
kind_of percent_d = signed

digit_read : (d : ℕ) → d < 10 → is_digit (b'0' + d) ≡ true
digit_read d h = ground arith

digit_step :
    (acc d : ℕ) (found : Bool) (rest : List ℕ)
    → d < 10
    → digits is_digit 10 acc found ((b'0' + d) ∷ rest) ≡ digits is_digit 10 (acc * 10 + d) true rest
unfolding digits
digit_step acc d found rest h =
    let value : digit_value (b'0' + d) ≡ d = ground arith in
    rw (digit_read d h, digits) (ap (λ v. digits is_digit 10 (acc * 10 + v) true rest) value)

-- A decimal number is read back, whatever follows it.
digits-print_from :
    (f n : ℕ) (found : Bool) (rest : List ℕ)
    → n ≤ f
    → digits is_digit 10 0 found (print_from f n ++ rest) ≡ digits is_digit 10 n true rest
unfolding print_from
digits-print_from zero n found rest h =
    digit_step 0 n found rest (omega arith) ∙ ap (λ v. digits is_digit 10 v true rest) (omega arith)
digits-print_from (suc f) n found rest h = elim (Bool-cases (ltb n 10)) [
  | inl small ↦ rw small (
      digit_step 0 n found rest (ground arith)
      ∙ ap (λ v. digits is_digit 10 v true rest) (omega arith))
  | inr large ↦ rw large (
      ap (digits is_digit 10 0 found) (append_assoc (print_from f (n / 10)) _ rest)
      ∙ digits-print_from f (n / 10) found ((b'0' + n % 10) ∷ rest) (ground arith)
      ∙ digit_step (n / 10) (n % 10) true rest (omega arith)
      ∙ ap (λ v. digits is_digit 10 v true rest) (omega arith))
]

hex_char-read : (d : ℕ) → d < 16 → is_hex_digit (hex_char d) ≡ true
hex_char-read d h = ground arith

hex_step :
    (acc d : ℕ) (found : Bool) (rest : List ℕ)
    → d < 16
    → digits is_hex_digit 16 acc found (hex_char d ∷ rest)
      ≡ digits is_hex_digit 16 (acc * 16 + d) true rest
unfolding digits
hex_step acc d found rest h =
    let value : digit_value (hex_char d) ≡ d = ground arith in
    rw (hex_char-read d h, digits) (ap (λ v. digits is_hex_digit 16 (acc * 16 + v) true rest) value)

-- So is a hexadecimal number of a fixed width that holds it.
digits-print_hex :
    (w n : ℕ) (rest : List ℕ)
    → n < 16 ^ suc w
    → digits is_hex_digit 16 0 false (print_hex (suc w) n ++ rest)
      ≡ digits is_hex_digit 16 n true rest
unfolding print_hex
digits-print_hex zero n rest h =
    hex_step 0 (n % 16) false rest (omega arith)
    ∙ ap (λ v. digits is_hex_digit 16 v true rest) (omega arith)
digits-print_hex (suc w) n rest h =
    ap (digits is_hex_digit 16 0 false) (append_assoc (print_hex (suc w) (n / 16)) _ rest)
    ∙ digits-print_hex w (n / 16) (hex_char (n % 16) ∷ rest) (omega (arith, pow-suc 16 (suc w)))
    ∙ hex_step (n / 16) (n % 16) true rest (omega arith)
    ∙ ap (λ v. digits is_hex_digit 16 v true rest) (omega arith)

digits-Stops :
    (is_one : ℕ → Bool) (base n : ℕ) (rest : List ℕ)
    → ((c : ℕ) → is_hex_digit c ≡ false → is_one c ≡ false)
    → Stops rest
    → digits is_one base n true rest ≡ some (n, rest)
unfolding digits
digits-Stops is_one base n [] k h = refl
digits-Stops is_one base n (c ∷ cs) k h = rw (k c h, digits) refl

not_digit : (c : ℕ) → is_hex_digit c ≡ false → is_digit c ≡ false
not_digit c h = ground arith

decimal_back :
    (n : ℕ) (rest : List ℕ)
    → Stops rest
    → digits is_digit 10 0 false (print_decimal n ++ rest) ≡ some (n, rest)
decimal_back n rest h =
    digits-print_from n n false rest (omega arith) ∙ digits-Stops is_digit 10 n rest not_digit h

-- A printed number begins with a digit.
print_from-front :
    (f n : ℕ) → n ≤ f → (c : ℕ) × (cs : List ℕ) × (print_from f n ≡ c ∷ cs) × (b'0' ≤ c)
unfolding print_from
print_from-front zero n h = (b'0' + n, [], refl, omega arith)
print_from-front (suc f) n h = elim (Bool-cases (ltb n 10)) [
  | inl small ↦ (b'0' + n, [], rw small refl, omega arith)
  | inr large ↦
      let (c, cs, is, low) = print_from-front f (n / 10) (ground arith) in
      (c, cs ++ (b'0' + n % 10) ∷ [], rw (large, is) refl, low)
]

signed_digits :
    (c : ℕ) (cs : List ℕ)
    → b'0' ≤ c
    → signed_number (c ∷ cs) ≡ as_positive (digits is_digit 10 0 false (c ∷ cs))
signed_digits c cs h = ground arith

signed_decimal :
    (n : ℕ) (rest : List ℕ)
    → signed_number (print_decimal n ++ rest)
      ≡ as_positive (digits is_digit 10 0 false (print_decimal n ++ rest))
signed_decimal n rest =
    let (c, cs, is, low) = print_from-front n n (omega arith) in
    rw is (signed_digits c (cs ++ rest) low)

sub_zero : (n : ℕ) → sub_ℕ 0 (suc n) ≡ negsuc n
sub_zero n = ground arith

pub number-print :
    (conversion : Conversion) (v : ℤ) (rest : List ℕ)
    → Fits conversion v
    → Stops rest
    → number (kind_of conversion) (print_conversion conversion v ++ rest) ≡ some (v, rest)
unfolding number
number-print percent_08x (pos n) rest f h =
    ap as_positive
      (digits-print_hex 7 n rest (omega arith) ∙ digits-Stops is_hex_digit 16 n rest (λ c e. e) h)
number-print percent_08x (negsuc n) rest f h = absurd f
number-print percent_u (pos n) rest f h = ap as_positive (decimal_back n rest h)
number-print percent_u (negsuc n) rest f h = absurd f
number-print percent_llu (pos n) rest f h = ap as_positive (decimal_back n rest h)
number-print percent_llu (negsuc n) rest f h = absurd f
number-print percent_d (pos n) rest f h =
    signed_decimal n rest ∙ ap as_positive (decimal_back n rest h)
number-print percent_d (negsuc n) rest f h =
    ap as_negative (decimal_back (suc n) rest h) ∙ ap (λ v. some (v, rest)) (sub_zero n)
