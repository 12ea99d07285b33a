-- ===== src/Hotplug/Closing.antt =====
-- Closing a cycle, and what holds from turn to turn (scripts/phase3/collect_usb_hotplug.py,
-- `collect`).
use mathlib.Core.Path.{subst}
use hpm5321_can_analyzer.Common.{
  ℕ, suc, ◌+◌, ◌*◌, ◌≤◌, ◌≡◌, refl, sym, ap, inl, inr, Bool, ◌&&◌, true, Option, none, some, List,
  [], ◌∷◌, ◌++◌, arith, length, length-append, Bool-cases,
}
use hpm5321_can_analyzer.Common.Int.{pos, eqb_ℤ, eqb_ℤ→eq}
use hpm5321_can_analyzer.Hotplug.Device.{Identity, identity_eq→eq}
use hpm5321_can_analyzer.Hotplug.Collect.{
  Config, Cycle, Evidence, Watch, Turn, next, failed, unfinished, is_identity, close_cycle,
}

-- The device came back as itself, with access to its node and a clean smoke, after a pause of the
-- least length.
pub record IsQualifiedCycle (config : Config) (identity : Identity) (n : ℕ) (c : Cycle)
    : Type 0 where
  pub number : c.number ≡ n
  pub device : c.device ≡ some identity
  pub readable : c.readable ≡ true
  pub writable : c.writable ≡ true
  pub smoke : c.smoke.exit_code ≡ pos 0
  pub pause : config.minimum_disconnect_ms * 1000 ≤ c.disconnect_us

-- Qualified cycles, numbered from `n` on.
abbrev pub AreQualified : Config → Identity → ℕ → List Cycle → Type 0
AreQualified config identity n [] = Unit
AreQualified config identity n (c ∷ cs) =
    IsQualifiedCycle config identity n c × AreQualified config identity (suc n) cs

AreQualified-append :
    (config : Config) (identity : Identity) (n : ℕ) (cs : List Cycle) (c : Cycle)
    → AreQualified config identity n cs
    → IsQualifiedCycle config identity (n + length cs) c
    → AreQualified config identity n (cs ++ c ∷ [])
AreQualified-append config identity n [] c q x =
    (subst (λ m. IsQualifiedCycle config identity m c) (omega arith) x, tt)
AreQualified-append config identity n (d ∷ cs) c q x = (
  q.0,
  AreQualified-append config identity (suc n) cs c q.1
      (subst (λ m. IsQualifiedCycle config identity m c) (omega arith) x),
)

-- What holds at each turn of the loop.
pub record IsWatch (config : Config) (identity : Identity) (w : Watch) : Type 0 where
  pub cycles : AreQualified config identity 1 w.evidence.cycles
  pub count : w.cycle_number ≡ 1 + length w.evidence.cycles
  pub completed : w.evidence.completed_cycles ≡ length w.evidence.cycles
  pub bound : w.cycle_number ≤ config.cycles + 1
  pub device : w.evidence.device ≡ some identity

-- What holds when the loop fails: the completed cycles are qualified, and at most one more is on
-- record.
pub record IsBroken (config : Config) (e : Evidence) : Type 0 where
  pub identity : Identity
  pub kept : List Cycle
  pub extra : List Cycle
  pub split : e.cycles ≡ kept ++ extra
  pub completed : e.completed_cycles ≡ length kept
  pub qualified : AreQualified config identity 1 kept
  pub bound : e.completed_cycles ≤ config.cycles
  pub one : length extra ≤ 1

abbrev pub Keeps : Config → Identity → Turn → Type 0
Keeps config identity (next w) = IsWatch config identity w
Keeps config identity (failed reason e) = IsBroken config e
Keeps config identity unfinished = Unit

append_nil : (cs : List Cycle) → cs ++ [] ≡ cs
append_nil [] = refl
append_nil (c ∷ cs) = ap (λ l. c ∷ l) (append_nil cs)

pub IsWatch-IsBroken :
    (config : Config) (identity : Identity) (w : Watch)
    → IsWatch config identity w
    → IsBroken config w.evidence
IsWatch-IsBroken config identity w k = record {
  identity = identity;
  kept = w.evidence.cycles;
  extra = [];
  split = sym (append_nil w.evidence.cycles);
  completed = k.completed;
  qualified = k.cycles;
  bound = omega (arith, k.completed, k.count, k.bound);
  one = omega arith;
}

-- A cycle that is on record and not completed.
IsWatch-IsBroken_cycle :
    (config : Config) (identity : Identity) (w : Watch) (c : Cycle)
    → IsWatch config identity w
    → IsBroken config (record w.evidence { cycles = w.evidence.cycles ++ c ∷ [] })
IsWatch-IsBroken_cycle config identity w c k = record {
  identity = identity;
  kept = w.evidence.cycles;
  extra = c ∷ [];
  split = refl;
  completed = k.completed;
  qualified = k.cycles;
  bound = omega (arith, k.completed, k.count, k.bound);
  one = omega arith;
}

IsWatch-next :
    (config : Config) (identity : Identity) (w : Watch) (c : Cycle)
    → IsWatch config identity w
    → w.cycle_number ≤ config.cycles
    → IsQualifiedCycle config identity w.cycle_number c
    → IsWatch config identity (record w {
      present = true;
      cycle_number = w.cycle_number + 1;
      evidence = (record w.evidence {
        cycles = w.evidence.cycles ++ c ∷ [];
        completed_cycles = w.cycle_number;
      });
    })
IsWatch-next config identity w c k le q = record {
  cycles =
      AreQualified-append config identity 1 w.evidence.cycles c k.cycles
        (subst (λ n. IsQualifiedCycle config identity n c) k.count q);
  count = omega (arith, k.count, length-append w.evidence.cycles (c ∷ []));
  completed = omega (arith, k.count, length-append w.evidence.cycles (c ∷ []));
  bound = omega arith;
  device = k.device;
}

is_identity→eq :
    (device : Option Identity) (identity : Identity)
    → is_identity device identity ≡ true
    → device ≡ some identity
is_identity→eq none identity h = cc
is_identity→eq (some d) identity h = ap some (identity_eq→eq d identity h)

pub close_cycle-Keeps :
    (config : Config) (identity : Identity) (write_fails : Bool) (c : Cycle) (w : Watch)
    → IsWatch config identity w
    → w.cycle_number ≤ config.cycles
    → c.number ≡ w.cycle_number
    → config.minimum_disconnect_ms * 1000 ≤ c.disconnect_us
    → Keeps config identity (close_cycle identity write_fails c w)
unfolding close_cycle
close_cycle-Keeps config identity write_fails c w k le number pause =
    elim (Bool-cases (is_identity c.device identity)) [
      | inr h ↦ rw h (IsWatch-IsBroken_cycle config identity w c k)
      | inl h ↦ elim (Bool-cases (c.readable && c.writable)) [
        | inr h2 ↦ rw (h, h2) (IsWatch-IsBroken_cycle config identity w c k)
        | inl h2 ↦ elim (Bool-cases (eqb_ℤ c.smoke.exit_code (pos 0))) [
          | inr h3 ↦ rw (h, h2, h3) (IsWatch-IsBroken_cycle config identity w c k)
          | inl h3 ↦
              let good = IsWatch-next config identity w c k le (record {
                number = number;
                device = is_identity→eq c.device identity h;
                readable = ground arith;
                writable = ground arith;
                smoke = eqb_ℤ→eq _ _ h3;
                pause = pause;
              }) in
              elim (Bool-cases write_fails) [
                | inl h4 ↦ rw (h, h2, h3, h4) (IsWatch-IsBroken config identity _ good)
                | inr h4 ↦ rw (h, h2, h3, h4) good
              ]
        ]
      ]
    ]
