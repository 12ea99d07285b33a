-- ===== src/MemoryBudget/LinkMap.antt =====
-- Reading the linker's map (scripts/env/check_memory_budget.py, `parse_map` and `check`).
use hpm5321_can_analyzer.Common.{
  ℕ, ◌+◌, ◌-◌, ◌*◌, max, String, Bool, true, false, not, ◌&&◌, Option, none, some, List, [], ◌∷◌,
  any, is_empty, ltb, leb, if◌then◌else◌,
}
use hpm5321_can_analyzer.Common.Text.{codes, is_space, strip_left, strip, text_eq}
use hpm5321_can_analyzer.Heartbeat.Sample.{is_hex_digit, literal, digits}

pub data Name : Type 0 where
  flash ilm dlm ahb_sram : Name

abbrev pub name_eq : Name → Name → Bool
name_eq flash flash = true
name_eq ilm ilm = true
name_eq dlm dlm = true
name_eq ahb_sram ahb_sram = true
name_eq _ _ = false

abbrev pub text_of : Name → String
text_of flash = "FLASH"
text_of ilm = "ILM"
text_of dlm = "DLM"
text_of ahb_sram = "AHB_SRAM"

-- REGION_ORDER
abbrev pub region_order : List Name
region_order = flash ∷ ilm ∷ dlm ∷ ahb_sram ∷ []

pub record Region : Type 0 where
  pub name : Name
  pub origin : ℕ
  pub length : ℕ

-- `\s+0x([0-9a-fA-F]+)`: the number and what follows it.
unfoldable pub hex_field : List ℕ → Option (ℕ × List ℕ)
unfolding strip_left literal digits
hex_field [] = none
hex_field (c ∷ cs) =
    if not (is_space c) then none else elim (literal (codes "0x") (strip_left cs)) [
      | none ↦ none
      | some number ↦ digits is_hex_digit 16 0 false number
    ]

-- Two numbers, and what follows them.
unfoldable pub two_fields : List ℕ → Option (ℕ × (ℕ × List ℕ))
unfolding hex_field
two_fields cs = elim (hex_field cs) [
  | none ↦ none
  | some first ↦ elim (hex_field first.1) [
    | none ↦ none
    | some second ↦ some (first.0, (second.0, second.1))
  ]
]

-- MEMORY_RE at the names that are left to try; at most one of them is a prefix of a line.
unfoldable pub match_region : List Name → List ℕ → Option Region
unfolding literal two_fields
match_region [] line = none
match_region (name ∷ names) line = elim (literal (codes (text_of name)) line) [
  | none ↦ match_region names line
  | some rest ↦ elim (two_fields rest) [
    | none ↦ none
    | some fields ↦ some (record { name = name; origin = fields.0; length = fields.1.0 })
  ]
]

-- `regions[name] = (origin, length)`
unfoldable pub set_region : Region → List Region → List Region
set_region r [] = r ∷ []
set_region r (s ∷ rest) = if name_eq s.name r.name then r ∷ rest else s ∷ set_region r rest

-- The loop that reads the regions.
unfoldable pub read_regions : (in_memory : Bool) → List (List ℕ) → List Region → List Region
unfolding strip match_region set_region
read_regions in_memory [] regions = regions
read_regions in_memory (line ∷ lines) regions =
    elim (text_eq (strip line) (codes "Memory Configuration")) [
      | true ↦ read_regions true lines regions
      | false ↦ elim in_memory [
        | false ↦ read_regions false lines regions
        | true ↦ elim (match_region region_order line) [
          | some r ↦ read_regions true lines (set_region r regions)
          | none ↦
              elim (not (is_empty regions)
                && text_eq (strip line) (codes "Linker script and memory map")) [
                  | true ↦ regions
                  | false ↦ read_regions true lines regions
                ]
        ]
      ]
    ]

-- `\S+`: the longest run without white space, and what follows it.
unfoldable pub word_at : List ℕ → List ℕ × List ℕ
word_at [] = ([], [])
word_at (c ∷ cs) =
    let rest = word_at cs in if is_space c then ([], c ∷ cs) else (c ∷ rest.0, rest.1)

-- NONALLOC_SECTION_PREFIXES
abbrev pub nonalloc_prefixes : List String
nonalloc_prefixes =
    "comment" ∷ "debug" ∷ "gnu.attributes" ∷ "riscv.attributes" ∷ "shstrtab" ∷ "stab" ∷ "strtab"
    ∷ "symtab" ∷ []

abbrev pub starts_with : List ℕ → String → Bool
starts_with text prefix = elim (literal (codes prefix) text) [ none ↦ false | some rest ↦ true ]

-- `(?:\s|$)`
abbrev pub ends_field : List ℕ → Bool
ends_field [] = true
ends_field (c ∷ cs) = is_space c

pub record Section : Type 0 where
  pub address : ℕ
  pub size : ℕ

-- The section of a line, if it has one and that is allocated.
unfoldable pub section_of : List ℕ → Option Section
unfolding literal word_at two_fields
section_of line = elim (literal (codes ".") line) [
  | none ↦ none
  | some after_dot ↦
      let w = word_at after_dot in
      if is_empty w.0 then none else elim (two_fields w.1) [
        | none ↦ none
        | some fields ↦
            if not (ends_field fields.1.1)
            then none
            else if any (starts_with w.0) nonalloc_prefixes
            then none
            else some (record { address = fields.0; size = fields.1.0 })
      ]
]

-- `usage`, for every name; the code looks only at those of regions.
abbrev pub Usage : Type 0
Usage = Name → ℕ

-- `origin <= address < origin + length`
abbrev pub holds : Region → ℕ → Bool
holds r address = leb r.origin address && ltb address (r.origin + r.length)

abbrev pub raise_to : Name → ℕ → Usage → Usage
raise_to name end usage n = if name_eq name n then max (usage n) end else usage n

-- The loop over the regions, for one section.
unfoldable pub place : List Region → Section → Usage → Usage
place [] s usage = usage
place (r ∷ rest) s usage =
    if holds r s.address
    then raise_to r.name (s.address + s.size - r.origin) usage
    else place rest s usage

-- The loop over the lines.
unfoldable pub measure : List Region → List (List ℕ) → Usage → Usage
unfolding section_of place
measure regions [] usage = usage
measure regions (line ∷ lines) usage = elim (section_of line) [
  | none ↦ measure regions lines usage
  | some s ↦ measure regions lines (place regions s usage)
]

abbrev pub has_region : List Region → Name → Bool
has_region regions name = any (λ r. name_eq r.name name) regions

-- REQUIRED_REGIONS
abbrev pub complete : List Region → Bool
complete regions = has_region regions ilm && has_region regions dlm && has_region regions ahb_sram

-- `none` is the ValueError for a missing region.
unfoldable pub parse_map : List (List ℕ) → Option (List Region × Usage)
unfolding read_regions measure
parse_map lines =
    let regions = read_regions false lines [] in
    if complete regions then some (regions, measure regions lines (λ name. 0)) else none

-- The regions over their limits, in order.
unfoldable pub over_limits : List Region → Usage → (limits : Name → ℕ) → List Name → List Name
over_limits regions usage limits [] = []
over_limits regions usage limits (name ∷ names) =
    let rest = over_limits regions usage limits names in
    if has_region regions name && ltb (limits name) (usage name) then name ∷ rest else rest

unfoldable pub check : (limits : Name → ℕ) → List (List ℕ) → Option (List Name)
unfolding parse_map over_limits
check limits lines = elim (parse_map lines) [
  | none ↦ none
  | some parsed ↦ some (over_limits parsed.0 parsed.1 limits region_order)
]

-- DEFAULT_LIMITS
abbrev pub default_limits : Name → ℕ
default_limits flash = 950 * 1024
default_limits ilm = 120 * 1024
default_limits dlm = 130304 - 6 * 1024
default_limits ahb_sram = 24 * 1024
