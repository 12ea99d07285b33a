-- ===== src/MemoryBudget/Examples.antt =====
-- A small linker map: the theorem at it, and tests.
use hpm5321_can_analyzer.Common.{ℕ, ◌≡◌, ◌↔◌, refl, none, some, List, [], ◌∷◌, ◌++◌, String}
use hpm5321_can_analyzer.Common.Text.{codes, strip_left, strip}
use hpm5321_can_analyzer.Heartbeat.Sample.{literal, digits}
use hpm5321_can_analyzer.MemoryBudget.LinkMap.{
  ahb_sram, hex_field, two_fields, match_region, set_region, read_regions, word_at, section_of,
  place, measure, parse_map, over_limits, check, default_limits,
}
use hpm5321_can_analyzer.MemoryBudget.Budget.{IsWithinBudget, check-IsWithinBudget}

program : Unit {0}
unfolding strip_left strip literal digits hex_field two_fields match_region set_region read_regions
    word_at section_of place measure parse_map over_limits check
program = tt

-- A map whose section in AHB_SRAM has this size.
abbrev link_map : (size : String) → List (List ℕ)
link_map size =
    codes "Memory Configuration"
    ∷ codes "ILM 0x0 0x1f000"
    ∷ codes "DLM 0x80000 0x1fd00"
    ∷ codes "AHB_SRAM 0xf0400000 0x8000"
    ∷ codes "Linker script and memory map"
    ∷ codes ".debug_info 0x0 0xfffff"
    ∷ codes ".ahb 0xf0400010"
    ∷ (codes ".noncacheable 0xf0400010 " ++ codes size)
    ∷ []

-- 24 KiB, and one byte more.
fits : check default_limits (link_map "0x5ff0") ≡ some []
unfolding program
fits = refl

too_large : check default_limits (link_map "0x5ff1") ≡ some (ahb_sram ∷ [])
unfolding program
too_large = refl

no_regions : check default_limits [] ≡ none
unfolding program
no_regions = refl

check-IsWithinBudget_example :
    (check default_limits (link_map "0x5ff0") ≡ some [])
    ↔ IsWithinBudget default_limits (link_map "0x5ff0")
check-IsWithinBudget_example = check-IsWithinBudget default_limits (link_map "0x5ff0")
