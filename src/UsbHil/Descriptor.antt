-- ===== src/UsbHil/Descriptor.antt =====
-- Walking a configuration descriptor (scripts/phase3/run_usb_hil.py, `_descriptor_endpoints`).
-- Bytes are numbers.
use hpm5321_can_analyzer.Common.{
  ℕ, zero, suc, ◌+◌, ◌-◌, ◌*◌, ◌%◌, true, false, not, ◌||◌, Option, none, some, List, [], ◌∷◌, drop,
  length, ltb, ◌==◌, if◌then◌else◌,
}

-- The dictionary of endpoints, in the order of insertion.
abbrev pub Endpoints : Type 0
Endpoints = List (ℕ × ℕ)

-- `endpoints[endpoint] = size`
unfoldable pub set_endpoint : (endpoint size : ℕ) → Endpoints → Endpoints
set_endpoint endpoint size [] = (endpoint, size) ∷ []
set_endpoint endpoint size ((k, v) ∷ rest) =
    if k == endpoint then (k, size) ∷ rest else (k, v) ∷ set_endpoint endpoint size rest

unfoldable pub get_endpoint : Endpoints → (endpoint : ℕ) → Option ℕ
get_endpoint [] endpoint = none
get_endpoint ((k, v) ∷ rest) endpoint = if k == endpoint then some v else get_endpoint rest endpoint

-- The messages of the RuntimeError.
pub data DescriptorError : Type 0 where
  invalid_header wrong_total_length truncated_header invalid_length truncated_endpoint not_bulk :
      DescriptorError

pub data Walk : Type 0 where
  endpoints : Endpoints → Walk
  bad : DescriptorError → Walk
  out_of_fuel : Walk

-- `bytes[i]`, for an index in range.
abbrev pub byte : List ℕ → ℕ → ℕ
byte [] i = 0
byte (b ∷ bs) zero = b
byte (b ∷ bs) (suc i) = byte bs i

-- `int.from_bytes(bytes[i : i + 2], "little")`, for indices in range.
abbrev pub word : List ℕ → ℕ → ℕ
word bytes i = byte bytes i + 256 * byte bytes (i + 1)

-- USB_DESCRIPTOR_TYPE_ENDPOINT
abbrev pub type_endpoint : ℕ
type_endpoint = 5

-- The loop. The bytes are `descriptor[offset:]`; an item's length is at least 2, so `body` starts
-- at its offset 2. A turn takes one unit of fuel.
unfoldable pub walk : (fuel : ℕ) → List ℕ → Endpoints → Walk
walk fuel [] found = endpoints found
walk zero (b ∷ bs) found = out_of_fuel
walk (suc f) (item_length ∷ []) found = bad truncated_header
walk (suc f) (item_length ∷ kind ∷ body) found =
    elim (ltb item_length 2 || ltb (2 + length body) item_length) [
      | true ↦ bad invalid_length
      | false ↦ elim (kind == type_endpoint) [
        | false ↦ walk f (drop (item_length - 2) body) found
        | true ↦ elim (ltb item_length 7) [
          | true ↦ bad truncated_endpoint
          | false ↦ elim (byte body 1 % 4 == 2) [
            | false ↦ bad not_bulk
            | true ↦
                walk f (drop (item_length - 2) body)
                  (set_endpoint (byte body 0) (word body 2) found)
          ]
        ]
      ]
    ]

-- The length is enough fuel, since each item is at least two bytes long.
unfoldable pub descriptor_endpoints : (descriptor : List ℕ) → (expected_type : ℕ) → Walk
unfolding walk
descriptor_endpoints descriptor expected_type =
    if ltb (length descriptor) 9
      || not (byte descriptor 0 == 9)
      || not (byte descriptor 1 == expected_type)
    then bad invalid_header
    else if not (word descriptor 2 == length descriptor)
    then bad wrong_total_length
    else walk (length descriptor) descriptor []
