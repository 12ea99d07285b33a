-- ===== src/Analyzer/Matches.antt =====
-- Tests and counts that are 0 (scripts/phase3/reconcile_p3b_analyzer.py, `reconcile`).
use hpm5321_can_analyzer.Common.{
  ℕ, zero, suc, ◌+◌, ◌≡◌, refl, ap, inl, inr, String, Bool, true, false, not, List, [], ◌∷◌, ◌++◌,
  length, take, any, is_empty, if◌then◌else◌, arith, Bool-cases,
}
use hpm5321_can_analyzer.Common.Int.{pos, ◌<ℤ◌, eqb_ℤ→eq, leb_ℤ}
use hpm5321_can_analyzer.Common.Text.{text_eq→eq}
use hpm5321_can_analyzer.Common.Json.{null, Fields, get_or, eq_int}
use hpm5321_can_analyzer.Analyzer.Log.{Direction, send, recv, LogRecord, AnalyzerError}
use hpm5321_can_analyzer.Analyzer.Frames.{Frame}
use hpm5321_can_analyzer.Analyzer.Reconcile.{
  failures, is_unordered, is_send, id_differ, dlc_differ, payload_differ, mismatches,
  nonzero_counters,
}

abbrev pub AllFalse : List (Bool × AnalyzerError) → Type 0
AllFalse [] = Unit {0}
AllFalse (t ∷ ts) = (t.0 ≡ false) × AllFalse ts

pub failures-AllFalse : (ts : List (Bool × AnalyzerError)) → failures ts ≡ [] → AllFalse ts
unfolding failures
failures-AllFalse [] h = tt
failures-AllFalse (t ∷ ts) h = elim (Bool-cases t.0) [
  | inl bad ↦ let h' = rw (bad, failures) at h in cc
  | inr good ↦ (good, failures-AllFalse ts (rw (good, failures) at h))
]

pub AllFalse-append :
    (ts us : List (Bool × AnalyzerError)) → AllFalse (ts ++ us) → AllFalse ts × AllFalse us
AllFalse-append [] us h = (tt, h)
AllFalse-append (t ∷ ts) us h = let rest = AllFalse-append ts us h.1 in ((h.0, rest.0), rest.1)

pub both_empty : (es fs : List AnalyzerError) → is_empty (es ++ fs) ≡ true → (es ≡ []) × (fs ≡ [])
both_empty [] [] h = (refl, refl)
both_empty [] (f ∷ fs) h = cc
both_empty (e ∷ es) fs h = cc

-- Each record is the frame at its place.
abbrev pub AllMatch : List LogRecord → List Frame → Type 0
AllMatch [] [] = Unit {0}
AllMatch [] (f ∷ fs) = ⊥
AllMatch (r ∷ rs) [] = ⊥
AllMatch (r ∷ rs) (f ∷ fs) =
    (pos r.arbitration_id ≡ f.arbitration_id)
    × ((pos r.dlc ≡ f.dlc) × ((r.payload_hex ≡ f.payload_hex) × AllMatch rs fs))

-- Each time is after the one before it.
abbrev pub AllLater : LogRecord → List LogRecord → Type 0
AllLater r [] = Unit {0}
AllLater r (s ∷ rest) = (r.timestamp_ns <ℤ s.timestamp_ns) × AllLater s rest

abbrev pub IsIncreasing : List LogRecord → Type 0
IsIncreasing [] = Unit {0}
IsIncreasing (r ∷ rest) = AllLater r rest

abbrev pub AllSent : List LogRecord → Type 0
AllSent [] = Unit {0}
AllSent (r ∷ rs) = (r.direction ≡ send) × AllSent rs

-- The summary has 0 under each of the names.
abbrev pub AllZero : Fields → List String → Type 0
AllZero summary [] = Unit {0}
AllZero summary (name ∷ names) =
    (eq_int (get_or null name summary) (pos 0) ≡ true) × AllZero summary names

pub not-false : (b : Bool) → not b ≡ false → b ≡ true
not-false true h = refl
not-false false h = cc

one_more : (b : Bool) (n : ℕ) → (if b then 1 else 0) + n ≡ 0 → (b ≡ false) × (n ≡ 0)
one_more true n h = absurd (omega (arith, h))
one_more false n h = (refl, omega (arith, h))

pub mismatches-AllMatch :
    (rs : List LogRecord) (fs : List Frame)
    → length rs ≡ length fs
    → mismatches id_differ rs fs ≡ 0
    → mismatches dlc_differ rs fs ≡ 0
    → mismatches payload_differ rs fs ≡ 0
    → AllMatch rs fs
unfolding mismatches
mismatches-AllMatch [] [] same h1 h2 h3 = tt
mismatches-AllMatch [] (f ∷ fs) same h1 h2 h3 = absurd (omega (arith, same))
mismatches-AllMatch (r ∷ rs) [] same h1 h2 h3 = absurd (omega (arith, same))
mismatches-AllMatch (r ∷ rs) (f ∷ fs) same h1 h2 h3 =
    let i = one_more (id_differ r f) _ h1 in
    let d = one_more (dlc_differ r f) _ h2 in
    let p = one_more (payload_differ r f) _ h3 in
    (
      eqb_ℤ→eq _ _ (not-false _ i.0),
      (
        eqb_ℤ→eq _ _ (not-false _ d.0),
        (
          text_eq→eq _ _ (not-false _ p.0),
          mismatches-AllMatch rs fs (omega (arith, same)) i.1 d.1 p.1,
        ),
      ),
    )

unordered-AllLater :
    (r : LogRecord) (rest : List LogRecord) → is_unordered (r ∷ rest) ≡ false → AllLater r rest
unfolding is_unordered
unordered-AllLater r [] h = tt
unordered-AllLater r (s ∷ rest) h =
    let later : leb_ℤ s.timestamp_ns r.timestamp_ns ≡ false = ground arith in
    let more : is_unordered (s ∷ rest) ≡ false = ground arith in
    (ground arith, unordered-AllLater s rest more)

pub unordered-IsIncreasing : (rs : List LogRecord) → is_unordered rs ≡ false → IsIncreasing rs
unordered-IsIncreasing [] h = tt
unordered-IsIncreasing (r ∷ rest) h = unordered-AllLater r rest h

is_send→eq : (d : Direction) → is_send d ≡ true → d ≡ send
is_send→eq send h = refl
is_send→eq recv h = cc

pub any-AllSent :
    (rs : List LogRecord) → any (λ r. not (is_send r.direction)) rs ≡ false → AllSent rs
any-AllSent [] h = tt
any-AllSent (r ∷ rs) h =
    let sent : is_send r.direction ≡ true = ground arith in
    let rest : any (λ r. not (is_send r.direction)) rs ≡ false = ground arith in
    (is_send→eq r.direction sent, any-AllSent rs rest)

pub counters-AllZero :
    (summary : Fields) (names : List String)
    → AllFalse (nonzero_counters summary names)
    → AllZero summary names
unfolding nonzero_counters
counters-AllZero summary [] h = tt
counters-AllZero summary (name ∷ names) h = (not-false _ h.0, counters-AllZero summary names h.1)

pub take_all : {A : Type 0} (n : ℕ) (xs : List A) → n ≡ length xs → take n xs ≡ xs
take_all n [] same = ground arith
take_all zero (x ∷ xs) same = absurd (omega (arith, same))
take_all (suc n) (x ∷ xs) same = ap (λ ys. x ∷ ys) (take_all n xs (omega (arith, same)))
