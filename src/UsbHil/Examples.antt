-- ===== src/UsbHil/Examples.antt =====
-- The descriptors of the analyzer: the theorems at them, and tests.
use hpm5321_can_analyzer.Common.{ℕ, ◌≡◌, ◌↔◌, refl, true, some, List, [], ◌∷◌, ◌==◌, if◌then◌else◌}
use hpm5321_can_analyzer.UsbHil.Descriptor.{
  Endpoints, set_endpoint, get_endpoint, walk, endpoints, bad, not_bulk, descriptor_endpoints,
}
use hpm5321_can_analyzer.UsbHil.Items.{IsDescriptor, descriptor_endpoints-IsDescriptor}
use hpm5321_can_analyzer.UsbHil.FullSpeed.{
  Session, includes, endpoints_eq, has_sizes, is_qualifier, validate_fs_descriptor_set, IsFullSpeed,
  validate-IsFullSpeed,
}

program : Unit {0}
unfolding set_endpoint get_endpoint walk descriptor_endpoints includes endpoints_eq has_sizes
    is_qualifier validate_fs_descriptor_set
program = tt

-- A configuration with an interface and two endpoints, whose packet size has these two bytes.
abbrev configuration : (kind attributes low high : ℕ) → List ℕ
configuration kind attributes low high =
    9 ∷ kind ∷ 32 ∷ 0 ∷ 1 ∷ 1 ∷ 0 ∷ 0x80 ∷ 50 ∷ 9 ∷ 4 ∷ 0 ∷ 0 ∷ 2 ∷ 0xFF ∷ 0 ∷ 0 ∷ 0 ∷ 7 ∷ 5 ∷ 0x81
    ∷ attributes ∷ low ∷ high ∷ 0 ∷ 7 ∷ 5 ∷ 0x01 ∷ 2 ∷ low ∷ high ∷ 0 ∷ []

abbrev found : Endpoints
found = (0x81, 64) ∷ (0x01, 64) ∷ []

configuration-found : descriptor_endpoints (configuration 2 2 64 0) 2 ≡ endpoints found
unfolding program
configuration-found = refl

configuration-interrupt : descriptor_endpoints (configuration 2 3 64 0) 2 ≡ bad not_bulk
unfolding program
configuration-interrupt = refl

descriptor_endpoints-IsDescriptor_example :
    (descriptor_endpoints (configuration 2 2 64 0) 2 ≡ endpoints found)
    ↔ IsDescriptor 2 (configuration 2 2 64 0) found
descriptor_endpoints-IsDescriptor_example =
    descriptor_endpoints-IsDescriptor (configuration 2 2 64 0) 2 found

abbrev session : Session
session descriptor_type length =
    if descriptor_type == 6
    then some (10 ∷ 6 ∷ 0 ∷ 2 ∷ 0 ∷ 0 ∷ 0 ∷ 64 ∷ 1 ∷ 0 ∷ [])
    else if descriptor_type == 2
    then some (configuration 2 2 64 0)
    else some (configuration 7 2 0 2)

session-accepted : validate_fs_descriptor_set session ≡ true
unfolding program
session-accepted = refl

validate-IsFullSpeed_example : IsFullSpeed session
validate-IsFullSpeed_example = validate-IsFullSpeed session session-accepted
