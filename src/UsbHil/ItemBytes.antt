-- ===== src/UsbHil/ItemBytes.antt =====
-- The items of a descriptor and their bytes (scripts/phase3/run_usb_hil.py,
-- `_descriptor_endpoints`).
use hpm5321_can_analyzer.Common.{
  ℕ, zero, suc, ◌+◌, ◌%◌, ◌≤◌, ◌<◌, ◌≡◌, ap, refl, List, [], ◌∷◌, ◌++◌, drop, take, length, ◌==◌,
  if◌then◌else◌, arith,
}
use hpm5321_can_analyzer.UsbHil.Descriptor.{Endpoints, set_endpoint, byte, word, type_endpoint}

-- An item: its type and what follows the type.
pub record Item : Type 0 where
  pub kind : ℕ
  pub body : List ℕ

abbrev pub item_bytes : Item → List ℕ
item_bytes item = (2 + length item.body) ∷ item.kind ∷ item.body

abbrev pub bytes_of : List Item → List ℕ
bytes_of [] = []
bytes_of (item ∷ items) = item_bytes item ++ bytes_of items

-- An endpoint has its attributes and its packet size, and is a bulk endpoint.
pub record IsItem (item : Item) : Type 0 where
  pub long : item.kind ≡ type_endpoint → 5 ≤ length item.body
  pub bulk : item.kind ≡ type_endpoint → byte item.body 1 % 4 ≡ 2

abbrev pub AreItems : List Item → Type 0
AreItems [] = Unit
AreItems (item ∷ items) = IsItem item × AreItems items

-- The packet sizes of the endpoints among the items.
abbrev pub sizes_of : List Item → Endpoints → Endpoints
sizes_of [] found = found
sizes_of (item ∷ items) found = sizes_of items (
    if item.kind == type_endpoint
    then set_endpoint (byte item.body 0) (word item.body 2) found
    else found)

pub drop-append : (xs ys : List ℕ) → drop (length xs) (xs ++ ys) ≡ ys
drop-append [] ys = refl
drop-append (x ∷ xs) ys = drop-append xs ys

pub take-drop : (n : ℕ) (xs : List ℕ) → take n xs ++ drop n xs ≡ xs
take-drop zero xs = refl
take-drop (suc n) [] = refl
take-drop (suc n) (x ∷ xs) = ap (λ l. x ∷ l) (take-drop n xs)

pub length-take : (n : ℕ) (xs : List ℕ) → n ≤ length xs → length (take n xs) ≡ n
length-take zero xs h = refl
length-take (suc n) [] h = omega (arith, h)
length-take (suc n) (x ∷ xs) h = omega (arith, length-take n xs)

pub byte-append : (xs ys : List ℕ) (i : ℕ) → i < length xs → byte (xs ++ ys) i ≡ byte xs i
byte-append [] ys i h = ground arith
byte-append (x ∷ xs) ys zero h = refl
byte-append (x ∷ xs) ys (suc i) h = byte-append xs ys i (omega arith)

pub byte-take : (n : ℕ) (xs : List ℕ) (i : ℕ) → i < n → byte (take n xs) i ≡ byte xs i
byte-take zero xs i h = ground arith
byte-take (suc n) [] i h = refl
byte-take (suc n) (x ∷ xs) zero h = refl
byte-take (suc n) (x ∷ xs) (suc i) h = byte-take n xs i (omega arith)
