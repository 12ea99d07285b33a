-- ===== src/Heartbeat/Outcomes.antt =====
-- The ends of a run of the collector
-- (scripts/phase2/collect_heartbeat.py, `collect`).
use hpm5321_can_analyzer.Common.{
  ℕ, suc, ◌+◌, ◌≤◌, ◌≡◌, ◌↔◌, refl, ◌∙◌, inl, inr, ◌⊎◌, true, false, Option, none, some, List, [],
  ◌∷◌, arith, length, length-append, Bool-cases, if◌then◌else◌,
}
use hpm5321_can_analyzer.Heartbeat.Sample.{Sample}
use hpm5321_can_analyzer.Heartbeat.Required.{IsAccepted}
use hpm5321_can_analyzer.Heartbeat.Accepted.{validate_sample-IsAccepted}
use hpm5321_can_analyzer.Heartbeat.Collect.{
  Config, Round, sampled, Evidence, Result, Setup, fresh, add_entry, completed, finish, is_done,
  collect_rounds, collect, t_rtos_005, pass, fail, aborted, partial, qualified, qualification_ms,
  sha256_accepted,
}

-- The run came to its end, and what it recorded then suffices to be qualified.
pub record Qualifies (config : Config) (out : Result) : Type 0 where
  pub two_samples : 2 ≤ length out.evidence.samples
  pub duration : ℕ
  pub recorded : out.evidence.actual_duration ≡ some duration
  pub suffices : (config.test_id ≡ t_rtos_005) ⊎ (qualification_ms ≤ duration)

-- In some round the write after the loop fails.
abbrev pub HasFinalFailure : List Round → Type 0
HasFinalFailure [] = ⊥
HasFinalFailure (r ∷ rs) = (r.final_write_fails ≡ true) ⊎ HasFinalFailure rs

-- The three ways in which a run ends.
pub record HasPassed (config : Config) (out : Result) : Type 0 where
  pub status : out.evidence.status ≡ some pass
  pub exit_status : out.exit_status ≡ some 0
  pub two_samples : 2 ≤ length out.evidence.samples
  pub duration : ℕ
  pub recorded : out.evidence.actual_duration ≡ some duration
  pub qualification :
      (out.evidence.qualification ≡ qualified)
      ↔ ((config.test_id ≡ t_rtos_005) ⊎ (qualification_ms ≤ duration))

pub record HasFailed (config : Config) (rounds : List Round) (out : Result) : Type 0 where
  pub status : out.evidence.status ≡ some fail
  pub exit_status : (out.exit_status ≡ some 1) ⊎ (out.exit_status ≡ none)
  pub qualification :
      out.evidence.qualification ≡ qualified → Qualifies config out × HasFinalFailure rounds

pub record WasAborted (out : Result) : Type 0 where
  pub status : out.evidence.status ≡ some aborted
  pub exit_status : (out.exit_status ≡ some 130) ⊎ (out.exit_status ≡ none)
  pub unqualified : out.evidence.qualification ≡ partial

abbrev pub EndsWell : Config → List Round → Result → Type 0
EndsWell config rounds out = HasPassed config out ⊎ (HasFailed config rounds out ⊎ WasAborted out)

-- Every round samples a target that is accepted after the sample before, the evidence can be
-- written, also after the loop, and nobody interrupts.
pub record IsGoodRound (config : Config) (round : Round) (previous : Option Sample) (s : Sample)
    : Type 0 where
  pub sampled_s : round.outcome ≡ sampled s
  pub accepted : IsAccepted s previous config.minimum_stack
  pub written : round.write_fails ≡ false
  pub written_at_end : round.final_write_fails ≡ false
  pub undisturbed : round.pause_interrupted ≡ false

abbrev pub AreGoodRounds : Config → Option Sample → List Round → Type 0
AreGoodRounds config previous [] = Unit
AreGoodRounds config previous (r ∷ rs) =
    (s : Sample) × IsGoodRound config r previous s × AreGoodRounds config (some s) rs

-- In some round at least two samples are there and the duration has passed; `n` samples were there
-- before.
abbrev pub Reaches : Config → ℕ → List Round → Type 0
Reaches config n [] = ⊥
Reaches config n (r ∷ rs) = ((1 ≤ n) × (config.duration ≤ r.checked)) ⊎ Reaches config (suc n) rs

good_round-step :
    (config : Config) (r : Round) (rs : List Round) (previous : Option Sample) (s : Sample)
    (e : Evidence)
    → IsGoodRound config r previous s
    → collect_rounds config (r ∷ rs) previous e ≡ (
        if is_done config r (add_entry s r.stamped e)
        then some (finish config r (add_entry s r.stamped e))
        else collect_rounds config rs (some s) (add_entry s r.stamped e))
unfolding collect_rounds
good_round-step config r rs previous s e g =
    let v = (validate_sample-IsAccepted s previous config.minimum_stack).1 g.accepted in
    let sampled_s = g.sampled_s in
    let written = g.written in
    let undisturbed = g.undisturbed in
    elim (Bool-cases (is_done config r (add_entry s r.stamped e))) [
      | inl d ↦ ground arith
      | inr d ↦ ground arith
    ]

-- A run has passed.
abbrev pub Passes : Option Result → Type 0
Passes run =
    (out : Result) × (run ≡ some out)
    × (out.evidence.status ≡ some pass)
    × (out.exit_status ≡ some 0)

finish-status :
    (config : Config) (r : Round) (e : Evidence)
    → r.final_write_fails ≡ false
    → ((finish config r e).evidence.status ≡ some pass) × ((finish config r e).exit_status ≡ some 0)
unfolding finish completed
finish-status config r e written = rw (written, finish) (refl, refl)

-- If this round does not end the loop, a later one does.
later :
    (config : Config) (r : Round) (rs : List Round) (e next : Evidence)
    → is_done config r next ≡ false
    → length next.samples ≡ length e.samples + 1
    → Reaches config (length e.samples) (r ∷ rs)
    → Reaches config (length next.samples) rs
later config r rs e next d n (inl now) = absurd (ground arith)
later config r rs e next d n (inr h) =
    let m : length next.samples ≡ suc (length e.samples) = omega (arith, n) in rw m h

collect_rounds-Passes :
    (config : Config) (rounds : List Round) (previous : Option Sample) (e : Evidence)
    → AreGoodRounds config previous rounds
    → Reaches config (length e.samples) rounds
    → Passes (collect_rounds config rounds previous e)
collect_rounds-Passes config [] previous e g h = absurd h
collect_rounds-Passes config (r ∷ rs) previous e (s, g, gs) h =
    let next = add_entry s r.stamped e in
    let step = good_round-step config r rs previous s e g in
    elim (Bool-cases (is_done config r next)) [
      | inl d ↦
          let end = finish-status config r next g.written_at_end in
          (finish config r next, step ∙ rw d refl, end.0, end.1)
      | inr d ↦
          let (out, run, status, code) =
            collect_rounds-Passes config rs (some s) next gs
              (later config r rs e next d (length-append e.samples _) h) in
          (out, step ∙ rw d run, status, code)
    ]

-- A run whose rounds are all good, the writes of the evidence included, passes with exit status 0,
-- as soon as two samples are there and the duration is over.
pub collect-Passes :
    (setup : Setup) (config : Config) (rounds : List Round)
    → setup.elf_is_file ≡ true
    → sha256_accepted setup.elf_sha256 setup.expected_sha256 ≡ true
    → setup.server_runs ≡ true
    → AreGoodRounds config none rounds
    → Reaches config 0 rounds
    → Passes (collect setup config rounds)
unfolding collect
collect-Passes setup config rounds file sha server g h =
    let run = collect_rounds-Passes config rounds none fresh g h in rw (file, sha, server) run
