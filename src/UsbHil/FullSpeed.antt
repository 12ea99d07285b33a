-- ===== src/UsbHil/FullSpeed.antt =====
-- The descriptors of a Full-Speed build (scripts/phase3/run_usb_hil.py,
-- `validate_fs_descriptor_set`). The session is what its `read_descriptor` returns, `none` for the
-- RuntimeError.
use hpm5321_can_analyzer.Common.{
  ℕ, ◌≡◌, ◌∙◌, sym, ap, refl, inl, inr, Bool, true, false, not, ◌&&◌, Option, none, some, List, [],
  ◌∷◌, length, ◌==◌, if◌then◌else◌, arith, Bool-cases, Option-cases,
}
use hpm5321_can_analyzer.UsbHil.Descriptor.{
  Endpoints, get_endpoint, Walk, endpoints, bad, out_of_fuel, byte, descriptor_endpoints,
}
use hpm5321_can_analyzer.UsbHil.Items.{IsDescriptor, descriptor_endpoints-IsDescriptor}

-- `read_descriptor(descriptor_type, length)`
abbrev pub Session : Type 0
Session = (descriptor_type length : ℕ) → Option (List ℕ)

abbrev pub type_configuration : ℕ
type_configuration = 2

abbrev pub type_device_qualifier : ℕ
type_device_qualifier = 6

abbrev pub type_other_speed : ℕ
type_other_speed = 7

abbrev pub ep_out : ℕ
ep_out = 0x01

abbrev pub ep_in : ℕ
ep_in = 0x81

-- `{EP_OUT: size, EP_IN: size}`
abbrev pub both : (size : ℕ) → Endpoints
both size = (ep_out, size) ∷ (ep_in, size) ∷ []

abbrev pub is_size : Option ℕ → ℕ → Bool
is_size none size = false
is_size (some n) size = n == size

-- Every entry of the first dictionary is one of the second.
unfoldable pub includes : Endpoints → Endpoints → Bool
includes [] other = true
includes ((k, v) ∷ rest) other = is_size (get_endpoint other k) v && includes rest other

-- `==` of two dictionaries.
unfoldable pub endpoints_eq : Endpoints → Endpoints → Bool
endpoints_eq a b = includes a b && includes b a

-- The test of a configuration: its endpoints are as expected.
unfoldable pub has_sizes : (descriptor : List ℕ) → (expected_type size : ℕ) → Bool
has_sizes descriptor expected_type size = elim (descriptor_endpoints descriptor expected_type) [
  | endpoints found ↦ endpoints_eq found (both size)
  | bad reason ↦ false
  | out_of_fuel ↦ false
]

unfoldable pub is_qualifier : List ℕ → Bool
is_qualifier q =
    length q == 10
    && byte q 0 == 10
    && byte q 1 == type_device_qualifier
    && byte q 8 == 1
    && byte q 9 == 0

-- Whether the function returns.
unfoldable pub validate_fs_descriptor_set : Session → Bool
unfolding is_qualifier has_sizes
validate_fs_descriptor_set read = elim (read type_device_qualifier 10) [
  | none ↦ false
  | some qualifier ↦
      if not (is_qualifier qualifier) then false else elim (read type_configuration 512) [
        | none ↦ false
        | some current ↦ elim (read type_other_speed 512) [
          | none ↦ false
          | some other ↦
              has_sizes current type_configuration 64 && has_sizes other type_other_speed 512
        ]
      ]
]

is_size→eq : (o : Option ℕ) (size : ℕ) → is_size o size ≡ true → o ≡ some size
is_size→eq none size h = cc
is_size→eq (some n) size h = ap some (ground arith)

includes-get :
    (a b : Endpoints) (k v : ℕ)
    → includes a b ≡ true
    → get_endpoint a k ≡ some v
    → get_endpoint b k ≡ some v
unfolding includes get_endpoint
includes-get [] b k v h e = cc
includes-get ((j, u) ∷ rest) b k v h e = elim (Bool-cases (j == k)) [
  | inl same ↦
      let keys : j ≡ k = ground arith in
      let first : is_size (get_endpoint b j) u ≡ true = ground arith in
      ap (get_endpoint b) (sym keys)
      ∙ is_size→eq (get_endpoint b j) u first
      ∙ rw (same, get_endpoint) at e
  | inr other ↦ includes-get rest b k v (ground arith) (rw (other, get_endpoint) at e)
]

-- Two equal dictionaries give the same at every key.
endpoints_eq-get :
    (a b : Endpoints) → endpoints_eq a b ≡ true → (k : ℕ) → get_endpoint a k ≡ get_endpoint b k
unfolding endpoints_eq
endpoints_eq-get a b h k = elim (Option-cases (get_endpoint a k)) [
  | inr (v, is) ↦ is ∙ sym (includes-get a b k v (ground arith) is)
  | inl none_is ↦ elim (Option-cases (get_endpoint b k)) [
    | inl also ↦ none_is ∙ sym also
    | inr (v, is) ↦ let there = includes-get b a k v (ground arith) is in cc
  ]
]

-- The bytes are a descriptor of the type, and its endpoints are the two of the device, each with
-- packets of `size` bytes.
pub record HasSizes (bytes : List ℕ) (expected_type size : ℕ) : Type 0 where
  pub found : Endpoints
  pub descriptor : IsDescriptor expected_type bytes found
  pub sizes : (k : ℕ) → get_endpoint found k ≡ get_endpoint (both size) k

has_sizes-HasSizes :
    (bytes : List ℕ) (expected_type size : ℕ)
    → has_sizes bytes expected_type size ≡ true
    → HasSizes bytes expected_type size
unfolding has_sizes
has_sizes-HasSizes bytes expected_type size h =
    by_walk (descriptor_endpoints bytes expected_type) refl h
  where
    by_walk :
        (w : Walk)
        → descriptor_endpoints bytes expected_type ≡ w
        → (elim w [
          | endpoints found ↦ endpoints_eq found (both size)
          | bad reason ↦ false
          | out_of_fuel ↦ false
        ])
          ≡ true
        → HasSizes bytes expected_type size
    by_walk (endpoints found) is h = record {
      found = found;
      descriptor = (descriptor_endpoints-IsDescriptor bytes expected_type found).0 is;
      sizes = endpoints_eq-get found (both size) h;
    }
    by_walk (bad reason) is h = cc
    by_walk out_of_fuel is h = cc

-- What the session read.
pub record IsFullSpeed (read : Session) : Type 0 where
  pub qualifier : List ℕ
  pub qualifier_read : read type_device_qualifier 10 ≡ some qualifier
  pub qualifier_valid : is_qualifier qualifier ≡ true
  pub current : List ℕ
  pub current_read : read type_configuration 512 ≡ some current
  pub current_sizes : HasSizes current type_configuration 64
  pub other : List ℕ
  pub other_read : read type_other_speed 512 ≡ some other
  pub other_sizes : HasSizes other type_other_speed 512

-- If the function returns, the session has read a valid device qualifier, a configuration whose
-- endpoints are the device's two with packets of 64 bytes, and one for the other speed with packets
-- of 512 bytes; both are sequences of items in which every endpoint is a bulk endpoint.
pub validate-IsFullSpeed :
    (read : Session) → validate_fs_descriptor_set read ≡ true → IsFullSpeed read
unfolding validate_fs_descriptor_set
validate-IsFullSpeed read h = elim (Option-cases (read type_device_qualifier 10)) [
  | inl failed ↦ let h' = rw (failed, validate_fs_descriptor_set) at h in cc
  | inr (q, q_is) ↦ elim (Bool-cases (is_qualifier q)) [
    | inr invalid ↦ let h' = rw (q_is, invalid, validate_fs_descriptor_set) at h in cc
    | inl valid ↦ elim (Option-cases (read type_configuration 512)) [
      | inl failed ↦ let h' = rw (q_is, valid, failed, validate_fs_descriptor_set) at h in cc
      | inr (c, c_is) ↦ elim (Option-cases (read type_other_speed 512)) [
        | inl failed ↦
            let h' = rw (q_is, valid, c_is, failed, validate_fs_descriptor_set) at h in cc
        | inr (o, o_is) ↦
            let h' = rw (q_is, valid, c_is, o_is, validate_fs_descriptor_set) at h in
            record {
              qualifier = q;
              qualifier_read = q_is;
              qualifier_valid = valid;
              current = c;
              current_read = c_is;
              current_sizes = has_sizes-HasSizes c type_configuration 64 (ground (arith, h'));
              other = o;
              other_read = o_is;
              other_sizes = has_sizes-HasSizes o type_other_speed 512 (ground (arith, h'));
            }
      ]
    ]
  ]
]
