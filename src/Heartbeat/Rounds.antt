-- ===== src/Heartbeat/Rounds.antt =====
-- One round of the collecting loop, as a case distinction that the proofs about the loop share.
use hpm5321_can_analyzer.Common.{
  ◌≡◌, refl, inl, inr, true, Option, none, some, List, ◌∷◌, arith, Option-cases, Bool-cases,
}
use hpm5321_can_analyzer.Heartbeat.Sample.{Sample}
use hpm5321_can_analyzer.Heartbeat.Check.{validate_sample}
use hpm5321_can_analyzer.Heartbeat.Collect.{
  Config, Round, Outcome, sampled, failed, interrupted, Evidence, Result, add_entry, give_up, abort,
  finish, is_done, collect_rounds,
}

-- How the loop goes on from a round.
pub data RoundStep (config : Config) (round : Round) (rounds : List Round)
    (previous : Option Sample) (e : Evidence) (out : Result) : Type 0 where
  stopped : out ≡ abort round e → RoundStep config round rounds previous e out
  broken : out ≡ give_up round.handler_write_fails e → RoundStep config round rounds previous e out
  unwritten :
      (s : Sample)
      → validate_sample s previous config.minimum_stack ≡ none
      → out ≡ give_up round.handler_write_fails (add_entry s round.stamped e)
      → RoundStep config round rounds previous e out
  finished :
      (s : Sample)
      → validate_sample s previous config.minimum_stack ≡ none
      → is_done config round (add_entry s round.stamped e) ≡ true
      → out ≡ finish config round (add_entry s round.stamped e)
      → RoundStep config round rounds previous e out
  stopped_in_pause :
      (s : Sample)
      → validate_sample s previous config.minimum_stack ≡ none
      → out ≡ abort round (add_entry s round.stamped e)
      → RoundStep config round rounds previous e out
  continued :
      (s : Sample)
      → validate_sample s previous config.minimum_stack ≡ none
      → collect_rounds config rounds (some s) (add_entry s round.stamped e) ≡ some out
      → RoundStep config round rounds previous e out

module _ (config : Config) (round : Round) (rounds : List Round) (previous : Option Sample)
    (e : Evidence) (out : Result)
    (run : collect_rounds config (round ∷ rounds) previous e ≡ some out) where
  after_sample :
      (s : Sample)
      → round.outcome ≡ sampled s
      → validate_sample s previous config.minimum_stack ≡ none
      → RoundStep config round rounds previous e out
  unfolding collect_rounds
  after_sample s is v = elim (Bool-cases round.write_fails) [
    | inl w ↦ unwritten s v (ground arith)
    | inr w ↦ elim (Bool-cases (is_done config round (add_entry s round.stamped e))) [
      | inl d ↦ finished s v d (ground arith)
      | inr d ↦ elim (Bool-cases round.pause_interrupted) [
        | inl p ↦ stopped_in_pause s v (ground arith)
        | inr p ↦ continued s v (ground arith)
      ]
    ]
  ]

  pub collect_rounds-RoundStep : RoundStep config round rounds previous e out
  unfolding collect_rounds
  collect_rounds-RoundStep = by_outcome round.outcome refl
    where
      by_outcome : (o : Outcome) → round.outcome ≡ o → RoundStep config round rounds previous e out
      by_outcome interrupted is = stopped (ground arith)
      by_outcome failed is = broken (ground arith)
      by_outcome (sampled s) is =
          elim (Option-cases (validate_sample s previous config.minimum_stack)) [
            | inl v ↦ after_sample s is v
            | inr (reason, v) ↦ broken (ground arith)
          ]
