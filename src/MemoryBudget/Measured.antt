-- ===== src/MemoryBudget/Measured.antt =====
-- The measured usage of a region against a limit, section by section
-- (scripts/env/check_memory_budget.py, the last loop of `parse_map`).
use mathlib.Core.Path.{subst}
use hpm5321_can_analyzer.Common.{
  ℕ, ◌+◌, ◌-◌, ◌≤◌, ◌≡◌, ◌∙◌, sym, ap, refl, inl, inr, true, false, Option, none, some, List, [],
  ◌∷◌, arith, Bool-cases, Option-cases, if◌then◌else◌,
}
use hpm5321_can_analyzer.MemoryBudget.LinkMap.{
  Name, flash, ilm, dlm, ahb_sram, name_eq, Region, Section, section_of, Usage, holds, place,
  measure,
}

name_eq→eq : (a b : Name) → name_eq a b ≡ true → a ≡ b
name_eq→eq flash flash h = refl
name_eq→eq flash ilm h = cc
name_eq→eq flash dlm h = cc
name_eq→eq flash ahb_sram h = cc
name_eq→eq ilm flash h = cc
name_eq→eq ilm ilm h = refl
name_eq→eq ilm dlm h = cc
name_eq→eq ilm ahb_sram h = cc
name_eq→eq dlm flash h = cc
name_eq→eq dlm ilm h = cc
name_eq→eq dlm dlm h = refl
name_eq→eq dlm ahb_sram h = cc
name_eq→eq ahb_sram flash h = cc
name_eq→eq ahb_sram ilm h = cc
name_eq→eq ahb_sram dlm h = cc
name_eq→eq ahb_sram ahb_sram h = refl

name_eq_refl : (a : Name) → name_eq a a ≡ true
name_eq_refl flash = refl
name_eq_refl ilm = refl
name_eq_refl dlm = refl
name_eq_refl ahb_sram = refl

-- The first region that holds an address.
abbrev pub owner : List Region → (address : ℕ) → Option Region
owner [] address = none
owner (r ∷ rest) address = if holds r address then some r else owner rest address

-- A section that lies in the region ends within the limit, counted from the region's origin.
abbrev pub SectionFits : List Region → Name → (limit : ℕ) → Section → Type 0
SectionFits regions name limit s =
    (r : Region)
    → owner regions s.address ≡ some r
    → r.name ≡ name
    → s.address + s.size - r.origin ≤ limit

abbrev LineFits : List Region → Name → (limit : ℕ) → Option Section → Type 0
LineFits regions name limit none = Unit
LineFits regions name limit (some s) = SectionFits regions name limit s

-- The sections of all lines fit.
abbrev pub AllFit : List Region → Name → (limit : ℕ) → List (List ℕ) → Type 0
AllFit regions name limit [] = Unit
AllFit regions name limit (line ∷ lines) =
    LineFits regions name limit (section_of line) × AllFit regions name limit lines

region-injective : {a b : Region} → some a ≡ some b → a ≡ b
region-injective h = cc

owner_first :
    (first : Region) (rest : List Region) (s : Section) (r : Region)
    → holds first s.address ≡ true
    → owner (first ∷ rest) s.address ≡ some r
    → first ≡ r
owner_first first rest s r here o = region-injective (rw here at o)

not_owner :
    (first : Region) (rest : List Region) (s : Section) (name : Name) (r : Region)
    → name_eq first.name name ≡ false
    → holds first s.address ≡ true
    → owner (first ∷ rest) s.address ≡ some r
    → r.name ≡ name
    → ⊥
not_owner first rest s name r other here o n =
    let same = ap (λ x. x.name) (owner_first first rest s r here o) ∙ n in
    let true_is = ap (λ k. name_eq k name) same ∙ name_eq_refl name in cc

-- The usage when the section of the next line has been placed and the other lines are measured.
abbrev after_line : List Region → List (List ℕ) → Usage → Option Section → Usage
after_line regions lines usage none = measure regions lines usage
after_line regions lines usage (some s) = measure regions lines (place regions s usage)

measure_line :
    (regions : List Region) (line : List ℕ) (lines : List (List ℕ)) (usage : Usage)
    → measure regions (line ∷ lines) usage ≡ after_line regions lines usage (section_of line)
unfolding measure
measure_line regions line lines usage = elim (Option-cases (section_of line)) [
  | inl none_is ↦ rw (none_is, measure) refl
  | inr (s, is) ↦ rw (is, measure) refl
]

module _ (name : Name) (limit : ℕ) where
  place_fits :
      (regions : List Region) (s : Section) (usage : Usage)
      → place regions s usage name ≤ limit
      → (usage name ≤ limit) × SectionFits regions name limit s
  unfolding place
  place_fits [] s usage h = (h, λ r o n. cc)
  place_fits (first ∷ rest) s usage h = elim (Bool-cases (holds first s.address)) [
    | inr out ↦
        let p = place_fits rest s usage (rw (out, place) at h) in
        (p.0, λ r o n. p.1 r (rw out at o) n)
    | inl here ↦
        let h1 = rw (here, place) at h in
        elim (Bool-cases (name_eq first.name name)) [
          | inr other ↦
              (rw other at h1, λ r o n. elim (not_owner first rest s name r other here o n) [ ])
          | inl same ↦
              let h2 = rw same at h1 in
              (
                omega (arith, h2),
                λ r o n.
                    let origin = ap (λ x. x.origin) (owner_first first rest s r here o) in
                    omega (arith, h2, origin),
              )
        ]
  ]

  place_kept :
      (regions : List Region) (s : Section) (usage : Usage)
      → usage name ≤ limit
      → SectionFits regions name limit s
      → place regions s usage name ≤ limit
  unfolding place
  place_kept [] s usage u f = u
  place_kept (first ∷ rest) s usage u f = elim (Bool-cases (holds first s.address)) [
    | inr out ↦ rw (out, place) (place_kept rest s usage u (λ r o n. f r (rw out o) n))
    | inl here ↦ elim (Bool-cases (name_eq first.name name)) [
      | inr other ↦ rw (here, place, other) u
      | inl same ↦
          let ends = f first (rw here refl) (name_eq→eq first.name name same) in
          rw (here, place, same) (omega (arith, ends, u))
    ]
  ]

  pub measure_fits :
      (regions : List Region) (lines : List (List ℕ)) (usage : Usage)
      → measure regions lines usage name ≤ limit
      → (usage name ≤ limit) × AllFit regions name limit lines
  unfolding measure
  measure_fits regions [] usage h = (h, tt)
  measure_fits regions (line ∷ lines) usage h =
      by_section (section_of line)
        (subst (λ u. u name ≤ limit) (measure_line regions line lines usage) h)
        (λ u k. measure_fits regions lines u k)
    where
      by_section :
          (o : Option Section)
          → after_line regions lines usage o name ≤ limit
          → ((u : Usage)
              → measure regions lines u name ≤ limit
              → (u name ≤ limit) × AllFit regions name limit lines)
          → (usage name ≤ limit) × (LineFits regions name limit o × AllFit regions name limit lines)
      by_section none h later = let l = later usage h in (l.0, (tt, l.1))
      by_section (some s) h later =
          let l = later (place regions s usage) h in
          let p = place_fits regions s usage l.0 in (p.0, (p.1, l.1))

  pub measure_kept :
      (regions : List Region) (lines : List (List ℕ)) (usage : Usage)
      → usage name ≤ limit
      → AllFit regions name limit lines
      → measure regions lines usage name ≤ limit
  unfolding measure
  measure_kept regions [] usage u f = u
  measure_kept regions (line ∷ lines) usage u f =
      subst (λ u. u name ≤ limit) (sym (measure_line regions line lines usage))
        (by_section (section_of line) f.0 (λ u' k. measure_kept regions lines u' k f.1))
    where
      by_section :
          (o : Option Section)
          → LineFits regions name limit o
          → ((u' : Usage) → u' name ≤ limit → measure regions lines u' name ≤ limit)
          → after_line regions lines usage o name ≤ limit
      by_section none f later = later usage u
      by_section (some s) f later = later (place regions s usage) (place_kept regions s usage u f)
