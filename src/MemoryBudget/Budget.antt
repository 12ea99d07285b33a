-- ===== src/MemoryBudget/Budget.antt =====
-- What it means that the budget is kept (scripts/env/check_memory_budget.py, `check`).
use hpm5321_can_analyzer.Common.{
  ℕ, ◌≤◌, ◌≡◌, ◌↔◌, ap, refl, inl, inr, true, false, ◌&&◌, some, List, [], ◌∷◌, arith, ltb,
  Bool-cases,
}
use hpm5321_can_analyzer.MemoryBudget.LinkMap.{
  Name, flash, ilm, dlm, ahb_sram, Region, region_order, Usage, measure, has_region, complete,
  parse_map, over_limits, check, read_regions,
}
use hpm5321_can_analyzer.MemoryBudget.Measured.{AllFit, measure_fits, measure_kept}

-- Every region of the map keeps its limit.
abbrev KeepsLimits : List Region → Usage → (Name → ℕ) → List Name → Type 0
KeepsLimits regions usage limits [] = Unit
KeepsLimits regions usage limits (name ∷ names) =
    (has_region regions name ≡ true → usage name ≤ limits name)
    × KeepsLimits regions usage limits names

over_limits-KeepsLimits :
    (regions : List Region) (usage : Usage) (limits : Name → ℕ) (names : List Name)
    → over_limits regions usage limits names ≡ []
    → KeepsLimits regions usage limits names
unfolding over_limits
over_limits-KeepsLimits regions usage limits [] h = tt
over_limits-KeepsLimits regions usage limits (name ∷ names) h =
    elim (Bool-cases (has_region regions name && ltb (limits name) (usage name))) [
      | inl over ↦ let h' = rw (over, over_limits) at h in cc
      | inr kept ↦ (
        λ has. ground arith,
        over_limits-KeepsLimits regions usage limits names (rw (kept, over_limits) at h),
      )
    ]

KeepsLimits-over_limits :
    (regions : List Region) (usage : Usage) (limits : Name → ℕ) (names : List Name)
    → KeepsLimits regions usage limits names
    → over_limits regions usage limits names ≡ []
unfolding over_limits
KeepsLimits-over_limits regions usage limits [] k = refl
KeepsLimits-over_limits regions usage limits (name ∷ names) k =
    elim (Bool-cases (has_region regions name && ltb (limits name) (usage name))) [
      | inl over ↦ let le = k.0 (ground arith) in ground arith
      | inr kept ↦ rw (kept, over_limits) (KeepsLimits-over_limits regions usage limits names k.1)
    ]

kept_at :
    (regions : List Region) (usage : Usage) (limits : Name → ℕ) (name : Name)
    → KeepsLimits regions usage limits region_order
    → has_region regions name ≡ true
    → usage name ≤ limits name
kept_at regions usage limits flash k has = k.0 has
kept_at regions usage limits ilm k has = k.1.0 has
kept_at regions usage limits dlm k has = k.1.1.0 has
kept_at regions usage limits ahb_sram k has = k.1.1.1.0 has

-- The map has the regions that are required, and in each of its regions every section of the map
-- ends within the limit.
pub record IsWithinBudget (limits : Name → ℕ) (lines : List (List ℕ)) : Type 0 where
  pub required : complete (read_regions false lines []) ≡ true
  pub fits :
      (name : Name)
      → has_region (read_regions false lines []) name ≡ true
      → AllFit (read_regions false lines []) name (limits name) lines

some-injective : {a b : List Name} → some a ≡ some b → a ≡ b
some-injective h = cc

check-IsWithinBudget_sound :
    (limits : Name → ℕ) (lines : List (List ℕ))
    → check limits lines ≡ some []
    → IsWithinBudget limits lines
unfolding check parse_map
check-IsWithinBudget_sound limits lines h =
    let regions = read_regions false lines [] in
    elim (Bool-cases (complete regions)) [
      | inr missing ↦ let h' = rw (missing, parse_map, check) at h in cc
      | inl required ↦
          let k =
            over_limits-KeepsLimits regions (measure regions lines (λ name. 0)) limits region_order
              (some-injective (rw (required, parse_map, check) at h)) in
          let fit = λ (name : Name) (le : measure regions lines (λ name. 0) name ≤ limits name).
            (measure_fits name (limits name) regions lines (λ name. 0) le).1 in
          record {
            required = required;
            fits = λ name has.
                fit name (kept_at regions (measure regions lines (λ n. 0)) limits name k has);
          }
    ]

check-IsWithinBudget_complete :
    (limits : Name → ℕ) (lines : List (List ℕ))
    → IsWithinBudget limits lines
    → check limits lines ≡ some []
unfolding check parse_map
check-IsWithinBudget_complete limits lines b =
    let regions = read_regions false lines [] in
    let usage = measure regions lines (λ name. 0) in
    let kept = λ (name : Name) (has : has_region regions name ≡ true).
      measure_kept name (limits name) regions lines (λ name. 0) (omega arith) (b.fits name has) in
    let over =
      KeepsLimits-over_limits regions usage limits region_order
        (kept flash, (kept ilm, (kept dlm, (kept ahb_sram, tt)))) in
    rw (b.required, parse_map, check) (ap some over)

-- The check finds no failure exactly if the map has the regions that are required, and in each of
-- its regions every allocated section whose address lies there ends within the limit, counted from
-- the region's origin.
pub check-IsWithinBudget :
    (limits : Name → ℕ) (lines : List (List ℕ))
    → (check limits lines ≡ some []) ↔ IsWithinBudget limits lines
check-IsWithinBudget limits lines =
    (check-IsWithinBudget_sound limits lines, check-IsWithinBudget_complete limits lines)
