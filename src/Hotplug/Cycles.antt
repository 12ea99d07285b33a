-- ===== src/Hotplug/Cycles.antt =====
-- How the loop over the cycles ends (scripts/phase3/collect_usb_hotplug.py, `collect`).
use mathlib.Core.Path.{subst}
use hpm5321_can_analyzer.Common.{
  ◌≡◌, refl, ◌⊎◌, inl, inr, Bool, true, false, none, some, List, [], ◌∷◌, arith, length, ltb, leb,
  Bool-cases, is_empty, if◌then◌else◌,
}
use hpm5321_can_analyzer.Hotplug.Device.{find_usb_devices, Identity}
use hpm5321_can_analyzer.Hotplug.Collect.{
  pass, fail, qualified, not_qualified, Config, Evidence, Outcome, Failure, Poll, Watch, Turn, next,
  failed, unfinished, turn, watch, finish, give_up,
}
use hpm5321_can_analyzer.Hotplug.Closing.{AreQualified, IsWatch, IsBroken, Keeps, IsWatch-IsBroken}
use hpm5321_can_analyzer.Hotplug.Qualified.{turn-Keeps}

-- The evidence of a pass: as many qualified cycles as asked for, of one device with a serial.
pub record Qualifies (config : Config) (out : Outcome) : Type 0 where
  pub status : out.evidence.status ≡ pass
  pub verdict : out.evidence.verdict ≡ qualified
  pub completed : out.evidence.completed_cycles ≡ config.cycles
  pub count : length out.evidence.cycles ≡ config.cycles
  pub identity : Identity
  pub device : out.evidence.device ≡ some identity
  pub serial : is_empty identity.serial ≡ false
  pub cycles : AreQualified config identity 1 out.evidence.cycles

-- The evidence of a failure, with its reason.
pub record Fails (config : Config) (out : Outcome) : Type 0 where
  pub status : out.evidence.status ≡ fail
  pub verdict : out.evidence.verdict ≡ not_qualified
  pub reason : Failure
  pub recorded : out.evidence.failure ≡ some reason
  pub broken : IsBroken config out.evidence

-- A run with no exit status is one whose handler could not write.
abbrev pub Concludes : (handler_fails : Bool) → Config → Outcome → Type 0
Concludes handler config out =
    ((out.exit_status ≡ some 0) × Qualifies config out)
    ⊎ ((out.exit_status ≡ (if handler then none else some 1)) × Fails config out)

pub give_up-Concludes :
    (handler : Bool) (config : Config) (reason : Failure) (e : Evidence)
    → IsBroken config e
    → Concludes handler config (give_up handler reason e)
give_up-Concludes handler config reason e b = inr (
  refl,
  record {
    status = refl;
    verdict = refl;
    reason = reason;
    recorded = refl;
    broken = record {
      identity = b.identity;
      kept = b.kept;
      extra = b.extra;
      split = b.split;
      completed = b.completed;
      qualified = b.qualified;
      bound = b.bound;
      one = b.one;
    };
  },
)

finish-Concludes :
    (handler : Bool) (config : Config) (identity : Identity) (write_fails : Bool) (w : Watch)
    → is_empty identity.serial ≡ false
    → IsWatch config identity w
    → ltb config.cycles w.cycle_number ≡ true
    → Concludes handler config (finish handler write_fails w.evidence)
unfolding finish
finish-Concludes handler config identity true w s k h =
    give_up-Concludes handler config Failure.os_error w.evidence
      (IsWatch-IsBroken config identity w k)
finish-Concludes handler config identity false w s k h = inl (
  refl,
  record {
    status = refl;
    verdict = refl;
    completed = ground (arith, k.completed, k.count, k.bound, h);
    count = ground (arith, k.count, k.bound, h);
    identity = identity;
    device = k.device;
    serial = s;
    cycles = k.cycles;
  },
)

pub some-injective : {a b : Outcome} → some a ≡ some b → a ≡ b
some-injective h = cc

pub watch-Concludes :
    (handler : Bool) (config : Config) (identity : Identity) (final : Bool) (polls : List Poll)
    (w : Watch) (out : Outcome)
    → is_empty identity.serial ≡ false
    → IsWatch config identity w
    → watch config identity handler final polls w ≡ some out
    → Concludes handler config out
unfolding watch
watch-Concludes handler config identity final [] w out s k h =
    elim (Bool-cases (ltb config.cycles w.cycle_number)) [
      | inl over ↦
          subst (Concludes handler config) (some-injective (rw (over, watch) at h))
            (finish-Concludes handler config identity final w s k over)
      | inr more ↦ let h' = rw (more, watch) at h in cc
    ]
watch-Concludes handler config identity final (poll ∷ polls) w out s k h =
    elim (Bool-cases (ltb config.cycles w.cycle_number)) [
      | inl over ↦
          subst (Concludes handler config) (some-injective (rw (over, watch) at h))
            (finish-Concludes handler config identity final w s k over)
      | inr more ↦ elim (Bool-cases (leb config.overall_timeout poll.tested)) [
        | inl late ↦
            subst (Concludes handler config) (some-injective (rw (more, late, watch) at h)) (
              give_up-Concludes handler config Failure.overall_timeout w.evidence
                (IsWatch-IsBroken config identity w k))
        | inr early ↦
            after
              (λ w' kept run. watch-Concludes handler config identity final polls w' out s kept run)
              (turn config identity poll (find_usb_devices poll.candidates config.vid config.pid) w)
              (turn-Keeps config identity poll w k (ground arith)
                (find_usb_devices poll.candidates config.vid config.pid))
              (rw (more, early, watch) at h)
      ]
    ]
  where
    after :
        ((w' : Watch)
          → IsWatch config identity w'
          → watch config identity handler final polls w' ≡ some out
          → Concludes handler config out)
        → (t : Turn) → Keeps config identity t
        → (elim t [
          | next w' ↦ watch config identity handler final polls w'
          | failed reason e ↦ some (give_up handler reason e)
          | unfinished ↦ none
        ])
          ≡ some out
        → Concludes handler config out
    after loop (next w') kept h = loop w' kept h
    after loop (failed reason e) kept h =
        subst (Concludes handler config) (some-injective h)
          (give_up-Concludes handler config reason e kept)
    after loop unfinished kept h = cc
