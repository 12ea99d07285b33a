-- ===== src/Heartbeat/Chain.antt =====
-- The recorded samples as a chain
-- (scripts/phase2/collect_heartbeat.py, `collect`).
use hpm5321_can_analyzer.Common.{
  ℕ, suc, ◌≡◌, refl, sym, ◌∙◌, ap, inl, inr, ◌⊎◌, Bool-cases, Option, none, some, List, [], ◌∷◌,
  ◌++◌, arith, length,
}
use mathlib.Core.Path.{subst}
use hpm5321_can_analyzer.Common.Int.{negsuc, ℤ, pos, ◌≤ℤ◌, ◌<ℤ◌, ◌+ℤ◌}
use hpm5321_can_analyzer.Heartbeat.Sample.{Field, Sample}
use hpm5321_can_analyzer.Heartbeat.Check.{validate_sample}
use hpm5321_can_analyzer.Heartbeat.Required.{IsAccepted}
use hpm5321_can_analyzer.Heartbeat.Accepted.{validate_sample-IsAccepted}
use hpm5321_can_analyzer.Heartbeat.Rounds.{
  collect_rounds-RoundStep, stopped, broken, unwritten, finished, stopped_in_pause, continued,
}
use hpm5321_can_analyzer.Heartbeat.Collect.{
  Config, Round, Entry, Evidence, Result, Setup, fresh, add_entry, abort, completed, finish,
  round_ms, collect_rounds, collect,
}

-- Each entry's sample is accepted after the one before.
abbrev pub IsChain : ℤ → Option Sample → List Entry → Type 0
IsChain m previous [] = Unit
IsChain m previous (e ∷ es) = IsAccepted e.sample previous m × IsChain m (some e.sample) es

append_assoc_entries : (xs ys zs : List Entry) → (xs ++ ys) ++ zs ≡ xs ++ (ys ++ zs)
append_assoc_entries [] ys zs = refl
append_assoc_entries (x ∷ xs) ys zs = ap (λ l. x ∷ l) (append_assoc_entries xs ys zs)

append_nil_entries : (xs : List Entry) → xs ++ [] ≡ xs
append_nil_entries [] = refl
append_nil_entries (x ∷ xs) = ap (λ l. x ∷ l) (append_nil_entries xs)

-- What a run from `e` has added when it ends.
record Extends (m : ℤ) (previous : Option Sample) (e : Evidence) (out : Result) : Type 0 where
  added : List Entry
  chain : IsChain m previous added
  samples : out.evidence.samples ≡ e.samples ++ added

Extends-none :
    (m : ℤ) (previous : Option Sample) (e : Evidence) (out : Result)
    → out.evidence.samples ≡ e.samples
    → Extends m previous e out
Extends-none m previous e out h = record {
  added = [];
  chain = tt;
  samples = h ∙ sym (append_nil_entries e.samples);
}

Extends-entry :
    (m : ℤ) (previous : Option Sample) (s : Sample) (now : ℕ) (e : Evidence) (out : Result)
    → IsAccepted s previous m
    → Extends m (some s) (add_entry s now e) out
    → Extends m previous e out
unfolding round_ms
Extends-entry m previous s now e out h x = record {
  added = record { sample = s; elapsed = round_ms now } ∷ x.added;
  chain = (h, x.chain);
  samples =
      x.samples
      ∙ append_assoc_entries e.samples (record { sample = s; elapsed = round_ms now } ∷ []) x.added;
}

abort-samples : (round : Round) (e : Evidence) → (abort round e).evidence.samples ≡ e.samples
unfolding abort
abort-samples round e = refl

finish-samples :
    (config : Config) (round : Round) (e : Evidence)
    → (finish config round e).evidence.samples ≡ e.samples
unfolding finish completed
finish-samples config round e = elim (Bool-cases round.final_write_fails) [
  | inl lost ↦ rw lost refl
  | inr written ↦ rw written refl
]

collect_rounds-Extends :
    (config : Config) (rounds : List Round) (previous : Option Sample) (e : Evidence) (out : Result)
    → collect_rounds config rounds previous e ≡ some out
    → Extends config.minimum_stack previous e out
unfolding collect_rounds
collect_rounds-Extends config [] previous e out h = cc
collect_rounds-Extends config (round ∷ rounds) previous e out h =
    let m = config.minimum_stack in
    let next = λ (s : Sample). add_entry s round.stamped e in
    let sound = λ (s : Sample). (validate_sample-IsAccepted s previous m).0 in
    let ends_at =
      λ (s : Sample) (v : validate_sample s previous m ≡ none)
          (same : out.evidence.samples ≡ (next s).samples).
        Extends-entry m previous s round.stamped e out (sound s v)
          (Extends-none m (some s) (next s) out same) in
    elim (collect_rounds-RoundStep config round rounds previous e out h) [
      | stopped is ↦
          Extends-none m previous e out (ap (λ r. r.evidence.samples) is ∙ abort-samples round e)
      | broken is ↦ Extends-none m previous e out (ap (λ r. r.evidence.samples) is)
      | unwritten s v is ↦ ends_at s v (ap (λ r. r.evidence.samples) is)
      | finished s v d is ↦
          ends_at s v (ap (λ r. r.evidence.samples) is ∙ finish-samples config round (next s))
      | stopped_in_pause s v is ↦
          ends_at s v (ap (λ r. r.evidence.samples) is ∙ abort-samples round (next s))
      | continued s v more ↦
          Extends-entry m previous s round.stamped e out (sound s v)
            (collect_rounds-Extends config rounds (some s) (next s) out more)
    ]

early :
    (setup : Setup) (config : Config) (rounds : List Round) (out : Result)
    → collect setup config rounds ≡ some out
    → (out.evidence.samples ≡ []) ⊎ (collect_rounds config rounds none fresh ≡ some out)
unfolding collect
early setup config rounds out h = ground arith

collect-Extends :
    (setup : Setup) (config : Config) (rounds : List Round) (out : Result)
    → collect setup config rounds ≡ some out
    → Extends config.minimum_stack none fresh out
collect-Extends setup config rounds out h = elim (early setup config rounds out h) [
  | inl same ↦ Extends-none config.minimum_stack none fresh out same
  | inr loop ↦ collect_rounds-Extends config rounds none fresh out loop
]

-- The sample of the last entry.
abbrev pub last_sample : Entry → List Entry → Sample
last_sample a [] = a.sample
last_sample a (e ∷ es) = last_sample e es

add_zero-le : (a : ℤ) → a +ℤ pos 0 ≤ℤ a
add_zero-le (pos n) = ground arith
add_zero-le (negsuc n) = ground arith

add_suc-le : (a b c : ℤ) (n : ℕ) → a <ℤ b → b +ℤ pos n ≤ℤ c → a +ℤ pos (suc n) ≤ℤ c
add_suc-le (pos a) (pos b) c n h k = ground arith
add_suc-le (pos a) (negsuc b) c n h k = ground arith
add_suc-le (negsuc a) (pos b) c n h k = ground arith
add_suc-le (negsuc a) (negsuc b) c n h k = ground arith

-- Along a chain the boot stays, and each sample adds at least one heartbeat.
chain_advances :
    (m : ℤ) (a : Entry) (es : List Entry)
    → IsChain m (some a.sample) es
    → ((last_sample a es) Field.boot_tick ≡ a.sample Field.boot_tick)
      × (a.sample Field.heartbeat +ℤ pos (length es) ≤ℤ (last_sample a es) Field.heartbeat)
chain_advances m a [] c = (refl, add_zero-le (a.sample Field.heartbeat))
chain_advances m a (e ∷ es) c =
    let rest = chain_advances m e es c.1 in
    (
      rest.0 ∙ c.0.progress.same_boot,
      add_suc-le (a.sample Field.heartbeat) (e.sample Field.heartbeat) _ (length es)
          c.0.progress.heartbeat rest.1,
    )

-- What the recorded samples of a run say, if there is one: every sample was accepted after the one
-- before, and from the first to the last the target stayed in one boot and beat at least once per
-- sample.
pub record IsOneBoot (m : ℤ) (first : Entry) (rest : List Entry) : Type 0 where
  pub chain : IsChain m none (first ∷ rest)
  pub same_boot : (last_sample first rest) Field.boot_tick ≡ first.sample Field.boot_tick
  pub beats :
      first.sample Field.heartbeat +ℤ pos (length rest) ≤ℤ (last_sample first rest) Field.heartbeat

-- However a run of the collector ends, its recorded samples were each accepted after the one
-- before, and from the first to the last the boot time is the same and the heartbeat has grown by
-- at least one per sample.
pub collect-IsOneBoot :
    (setup : Setup) (config : Config) (rounds : List Round) (out : Result) (first : Entry)
    (rest : List Entry)
    → collect setup config rounds ≡ some out
    → out.evidence.samples ≡ first ∷ rest
    → IsOneBoot config.minimum_stack first rest
collect-IsOneBoot setup config rounds out first rest h e =
    let x = collect-Extends setup config rounds out h in
    let chain : IsChain config.minimum_stack none (first ∷ rest) =
      subst (IsChain config.minimum_stack none) (sym x.samples ∙ e) x.chain in
    let steps = chain_advances config.minimum_stack first rest chain.1 in
    record { chain = chain; same_boot = steps.0; beats = steps.1 }
