-- ===== src/Analyzer/PayloadText.antt =====
-- The text of a payload and its bytes (scripts/phase3/reconcile_p3b_analyzer.py,
-- `parse_analyzer_log`).
use hpm5321_can_analyzer.Common.{
  ℕ, ◌+◌, ◌*◌, ◌/◌, ◌%◌, ◌<◌, ◌≡◌, ◌∙◌, refl, ap, some, List, [], ◌∷◌, arith,
}
use hpm5321_can_analyzer.Analyzer.Log.{tight, spaced, half, hex_digit, hex_code, payload_bytes}

abbrev pub AllBytes : List ℕ → Type 0
AllBytes [] = Unit {0}
AllBytes (b ∷ bs) = (b < 256) × AllBytes bs

-- The text of bytes: a space and two digits for each.
abbrev pub payload_text : List ℕ → List ℕ
payload_text [] = []
payload_text (b ∷ bs) = 32 ∷ hex_code (b / 16) ∷ hex_code (b % 16) ∷ payload_text bs

hex_digit-hex_code : (v : ℕ) → v < 16 → hex_digit (hex_code v) ≡ some v
hex_digit-hex_code v h = ground arith

first_digit :
    (c x : ℕ) (cs : List ℕ)
    → hex_digit c ≡ some x
    → payload_bytes spaced (c ∷ cs) ≡ payload_bytes (half x) cs
unfolding payload_bytes
first_digit c x cs h = rw (h, payload_bytes) refl

second_digit :
    (high d y : ℕ) (rest bs : List ℕ)
    → hex_digit d ≡ some y
    → payload_bytes tight rest ≡ some bs
    → payload_bytes (half high) (d ∷ rest) ≡ some ((high * 16 + y) ∷ bs)
unfolding payload_bytes
second_digit high d y rest bs hd hr = rw (hd, hr, payload_bytes) refl

after_space : (cs : List ℕ) → payload_bytes tight (32 ∷ cs) ≡ payload_bytes spaced cs
unfolding payload_bytes
after_space cs = refl

-- The bytes that are matched in the text of bytes are those bytes.
pub payload_bytes-payload_text :
    (bs : List ℕ) → AllBytes bs → payload_bytes tight (payload_text bs) ≡ some bs
unfolding payload_bytes
payload_bytes-payload_text [] h = refl
payload_bytes-payload_text (b ∷ bs) h =
    let byte = h.0 in
    let high = hex_digit-hex_code (b / 16) (omega (arith, byte)) in
    let low = hex_digit-hex_code (b % 16) (omega arith) in
    let rest = payload_bytes-payload_text bs h.1 in
    let c = hex_code (b / 16) in
    let d = hex_code (b % 16) in
    let text = payload_text bs in
    after_space (c ∷ d ∷ text)
    ∙ first_digit c (b / 16) (d ∷ text) high
    ∙ second_digit (b / 16) d (b % 16) text bs low rest
    ∙ ap (λ n. some (n ∷ bs)) (omega arith)
