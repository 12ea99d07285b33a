-- ===== src/Hotplug/Device.antt =====
-- The device in sysfs (scripts/phase3/collect_usb_hotplug.py, `_read_text`, `find_usb_devices`,
-- `usb_device_node`, `usb_identity`).
use hpm5321_can_analyzer.Common.{
  ℕ, ◌≡◌, String, Bool, true, ◌&&◌, Option, none, some, List, [], ◌∷◌, map, arith, if◌then◌else◌,
}
use hpm5321_can_analyzer.Common.Int.{ℤ}
use hpm5321_can_analyzer.Common.Text.{strip, int_of_text, lower, text_eq, text_eq→eq, text_eq_refl}

-- A directory entry of sysfs: the contents of its files, `none` where reading gives an OSError, and
-- what `os.access` says of the device's node.
pub record Candidate : Type 0 where
  pub name : List ℕ
  pub file : String → Option (List ℕ)
  pub readable : Bool
  pub writable : Bool

unfoldable pub read_text : Candidate → String → List ℕ
unfolding strip
read_text device name = elim (device.file name) [ none ↦ [] | some text ↦ strip text ]

abbrev pub same_casefold : List ℕ → List ℕ → Bool
same_casefold a b = text_eq (map lower a) (map lower b)

-- In the directory's order: the script takes the length, and the first of one, so it does not
-- matter that it sorts them.
unfoldable pub find_usb_devices : List Candidate → (vid pid : List ℕ) → List Candidate
unfolding read_text
find_usb_devices [] vid pid = []
find_usb_devices (candidate ∷ candidates) vid pid =
    let rest = find_usb_devices candidates vid pid in
    if same_casefold (read_text candidate "idVendor") vid
      && same_casefold (read_text candidate "idProduct") pid
    then candidate ∷ rest
    else rest

-- The two numbers in the node's path.
unfoldable pub usb_device_node : Candidate → Option (ℤ × ℤ)
unfolding read_text int_of_text
usb_device_node device = elim (int_of_text (read_text device "busnum")) [
  | none ↦ none
  | some bus ↦ elim (int_of_text (read_text device "devnum")) [
    | none ↦ none
    | some number ↦ some (bus, number)
  ]
]

pub record Identity : Type 0 where
  pub topology_path : List ℕ
  pub manufacturer : List ℕ
  pub product : List ℕ
  pub serial : List ℕ
  pub speed_mbps : List ℕ

unfoldable pub usb_identity : Candidate → Identity
unfolding read_text
usb_identity device = record {
  topology_path = device.name;
  manufacturer = read_text device "manufacturer";
  product = read_text device "product";
  serial = read_text device "serial";
  speed_mbps = read_text device "speed";
}

-- `==` of two identities.
unfoldable pub identity_eq : Identity → Identity → Bool
identity_eq a b =
    text_eq a.topology_path b.topology_path
    && text_eq a.manufacturer b.manufacturer
    && text_eq a.product b.product
    && text_eq a.serial b.serial
    && text_eq a.speed_mbps b.speed_mbps

and_true : (a b : Bool) → (a && b) ≡ true → (a ≡ true) × (b ≡ true)
and_true a b h = ground arith

pub identity_eq→eq : (a b : Identity) → identity_eq a b ≡ true → a ≡ b
unfolding identity_eq
identity_eq→eq a b h =
    let (h4, e5) = and_true _ (text_eq a.speed_mbps b.speed_mbps) h in
    let (h3, e4) = and_true _ (text_eq a.serial b.serial) h4 in
    let (h2, e3) = and_true _ (text_eq a.product b.product) h3 in
    let (e1, e2) = and_true _ (text_eq a.manufacturer b.manufacturer) h2 in
    let p1 = text_eq→eq _ _ e1 in
    let p2 = text_eq→eq _ _ e2 in
    let p3 = text_eq→eq _ _ e3 in
    let p4 = text_eq→eq _ _ e4 in
    let p5 = text_eq→eq _ _ e5 in
    λ i. record {
      topology_path = p1 i;
      manufacturer = p2 i;
      product = p3 i;
      serial = p4 i;
      speed_mbps = p5 i;
    }

pub identity_eq_refl : (a : Identity) → identity_eq a a ≡ true
unfolding identity_eq
identity_eq_refl a = rw (
  text_eq_refl a.topology_path,
  text_eq_refl a.manufacturer,
  text_eq_refl a.product,
  text_eq_refl a.serial,
  text_eq_refl a.speed_mbps,
)
