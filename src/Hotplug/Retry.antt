-- ===== src/Hotplug/Retry.antt =====
-- The retries of the recovery smoke (scripts/phase3/collect_usb_hotplug.py,
-- `_run_smoke_with_retry`).
use mathlib.Core.Path.{subst}
use hpm5321_can_analyzer.Common.{
  ℕ, ◌+◌, ◌-◌, ◌≤◌, ◌<◌, ◌≡◌, refl, sym, ap, ◌⊎◌, inl, inr, ◌≢◌, ◌||◌, true, false, some, List, [],
  ◌∷◌, ◌++◌, arith, length, length-append, leb, Bool-cases, Option-cases,
}
use hpm5321_can_analyzer.Common.Int.{ℤ, pos, eqb_ℤ, eqb_ℤ→eq}
use hpm5321_can_analyzer.Hotplug.Smoke.{Attempt, Smoke, round_us, returned, run_smoke_with_retry}

-- An attempt after which another one is made.
pub record IsRetried (deadline : ℕ) (attempt : Attempt) : Type 0 where
  pub code : ℤ
  pub has_code : attempt.exit_code ≡ some code
  pub failed : code ≢ pos 0
  pub in_time : attempt.ended < deadline

abbrev pub AreRetried : ℕ → List Attempt → Type 0
AreRetried deadline [] = Unit
AreRetried deadline (a ∷ later) = IsRetried deadline a × AreRetried deadline later

-- The attempts that were made, and why the last of them was the last; `n` were made before.
pub record IsResult (deadline n : ℕ) (attempts : List Attempt) (smoke : Smoke) : Type 0 where
  pub before : List Attempt
  pub last : Attempt
  pub after : List Attempt
  pub split : attempts ≡ before ++ last ∷ after
  pub retried : AreRetried deadline before
  pub exit_code : last.exit_code ≡ some smoke.exit_code
  pub ends : (smoke.exit_code ≡ pos 0) ⊎ (deadline ≤ last.ended)
  pub count : smoke.attempt_count ≡ n + length before + 1
  pub listed : length smoke.attempts ≡ smoke.attempt_count

IsResult-later :
    (deadline n : ℕ) (a : Attempt) (later : List Attempt) (smoke : Smoke)
    → IsRetried deadline a
    → IsResult deadline (n + 1) later smoke
    → IsResult deadline n (a ∷ later) smoke
IsResult-later deadline n a later smoke r x = record {
  before = a ∷ x.before;
  last = x.last;
  after = x.after;
  split = ap (λ l. a ∷ l) x.split;
  retried = (r, x.retried);
  exit_code = x.exit_code;
  ends = x.ends;
  count = omega (arith, x.count);
  listed = x.listed;
}

returned-injective : {a b : Smoke} → returned a ≡ returned b → a ≡ b
returned-injective h = cc

IsResult-now :
    (deadline us : ℕ) (a : Attempt) (later : List Attempt) (done : List ℤ) (code : ℤ)
    → a.exit_code ≡ some code
    → eqb_ℤ code (pos 0) || leb deadline a.ended ≡ true
    → IsResult deadline (length done) (a ∷ later) (record {
      exit_code = code;
      attempt_count = length (done ++ code ∷ []);
      attempts = done ++ code ∷ [];
      recovery_us = us;
    })
IsResult-now deadline us a later done code is stop = record {
  before = [];
  last = a;
  after = later;
  split = refl;
  retried = tt;
  exit_code = is;
  ends = elim (Bool-cases (eqb_ℤ code (pos 0))) [
    | inl z ↦ inl (eqb_ℤ→eq code (pos 0) z)
    | inr z ↦ inr (ground arith)
  ];
  count = omega (arith, length-append done (code ∷ []));
  listed = refl;
}

IsRetried-now :
    (deadline : ℕ) (a : Attempt) (code : ℤ)
    → a.exit_code ≡ some code
    → eqb_ℤ code (pos 0) || leb deadline a.ended ≡ false
    → IsRetried deadline a
IsRetried-now deadline a code is go = record {
  code = code;
  has_code = is;
  failed = λ z. let bad = subst (λ c. eqb_ℤ c (pos 0) ≡ true) (sym z) refl in ground arith;
  in_time = ground arith;
}

pub retry-IsResult :
    (started timeout : ℕ) (attempts : List Attempt) (done : List ℤ) (smoke : Smoke)
    → run_smoke_with_retry started timeout attempts done ≡ returned smoke
    → IsResult (started + timeout) (length done) attempts smoke
unfolding run_smoke_with_retry
retry-IsResult started timeout [] done smoke h = cc
retry-IsResult started timeout (a ∷ later) done smoke h = elim (Option-cases a.exit_code) [
  | inl none_is ↦ let h' = rw none_is at h in cc
  | inr (code, is) ↦ elim (Bool-cases (eqb_ℤ code (pos 0) || leb (started + timeout) a.ended)) [
    | inl stop ↦
        subst (IsResult (started + timeout) (length done) (a ∷ later))
          (returned-injective (rw (is, stop) at h))
          (IsResult-now (started + timeout) _ a later done code is stop)
    | inr go ↦
        IsResult-later (started + timeout) (length done) a later smoke
          (IsRetried-now (started + timeout) a code is go)
          (subst (λ n. IsResult (started + timeout) n later smoke) (length-append done (code ∷ []))
            (retry-IsResult started timeout later (done ++ code ∷ []) smoke (rw (is, go) at h)))
  ]
]

-- The call that has made no attempt yet returns after the first attempt that exits with 0 or ends
-- at the timeout or later: all attempts before it failed in time, the exit status is its own, and
-- as many attempts are counted and listed as were made.
pub smoke-IsResult :
    (started timeout : ℕ) (attempts : List Attempt) (smoke : Smoke)
    → run_smoke_with_retry started timeout attempts [] ≡ returned smoke
    → IsResult (started + timeout) 0 attempts smoke
smoke-IsResult started timeout attempts smoke h = retry-IsResult started timeout attempts [] smoke h

-- An attempt that ends the call.
pub record IsLast (deadline : ℕ) (attempt : Attempt) (code : ℤ) : Type 0 where
  pub has_code : attempt.exit_code ≡ some code
  pub ends : (code ≡ pos 0) ⊎ (deadline ≤ attempt.ended)

IsLast-stop :
    (deadline : ℕ) (a : Attempt) (code : ℤ)
    → IsLast deadline a code
    → eqb_ℤ code (pos 0) || leb deadline a.ended ≡ true
IsLast-stop deadline a code x = elim x.ends [
  | inl z ↦ let zero_is = subst (λ c. eqb_ℤ c (pos 0) ≡ true) (sym z) refl in ground arith
  | inr le ↦ ground arith
]

IsRetried-go :
    (deadline : ℕ) (a : Attempt) (x : IsRetried deadline a)
    → eqb_ℤ x.code (pos 0) || leb deadline a.ended ≡ false
IsRetried-go deadline a x =
    let late : leb deadline a.ended ≡ false = ground (arith, x.in_time) in
    elim (Bool-cases (eqb_ℤ x.code (pos 0))) [
      | inl z ↦ elim (x.failed (eqb_ℤ→eq x.code (pos 0) z)) [ ]
      | inr z ↦ rw (z, late)
    ]

-- After retried attempts, an attempt that ends the call makes it return that attempt's exit status.
pub retry_returns :
    (started timeout : ℕ) (before after : List Attempt) (last : Attempt) (code : ℤ) (done : List ℤ)
    → AreRetried (started + timeout) before
    → IsLast (started + timeout) last code
    → (smoke : Smoke) × (run_smoke_with_retry started timeout (before ++ last ∷ after) done
        ≡ returned smoke)
      × (smoke.exit_code ≡ code)
unfolding run_smoke_with_retry
retry_returns started timeout [] after last code done r x =
    let smoke : Smoke = record {
      exit_code = code;
      attempt_count = length (done ++ code ∷ []);
      attempts = done ++ code ∷ [];
      recovery_us = round_us (last.ended - started);
    } in
    (smoke, rw (x.has_code, IsLast-stop (started + timeout) last code x), refl)
retry_returns started timeout (a ∷ before) after last code done r x =
    let rest = retry_returns started timeout before after last code (done ++ r.0.code ∷ []) r.1 x in
    (rest.0, rw (r.0.has_code, IsRetried-go (started + timeout) a r.0) rest.1, rest.2)
