-- ===== src/UsbHil/Items.antt =====
-- The walk over a descriptor against its items (scripts/phase3/run_usb_hil.py,
-- `_descriptor_endpoints`).
use mathlib.Core.Path.{subst}
use hpm5321_can_analyzer.Common.{
  ℕ, zero, suc, ◌+◌, ◌-◌, ◌*◌, ◌%◌, ◌≤◌, ◌≡◌, ◌↔◌, ◌∙◌, sym, ap, ap₂, refl, inl, inr, Bool, true,
  false, not, ◌||◌, List, [], ◌∷◌, ◌++◌, drop, take, length, length-append, ltb, ◌==◌, arith,
  Bool-cases,
}
use hpm5321_can_analyzer.UsbHil.Descriptor.{
  Endpoints, set_endpoint, endpoints, byte, word, type_endpoint, walk, descriptor_endpoints,
}
use hpm5321_can_analyzer.UsbHil.ItemBytes.{
  Item, bytes_of, IsItem, AreItems, sizes_of, drop-append, take-drop, length-take, byte-append,
  byte-take,
}

-- The test of an item's length against what is left.
item_fits :
    (body rest : List ℕ)
    → ltb (2 + length body) 2 || ltb (2 + length (body ++ rest)) (2 + length body) ≡ false
item_fits body rest = ground (arith, length-append body rest)

skip_item : (body rest : List ℕ) → drop (2 + length body - 2) (body ++ rest) ≡ rest
skip_item body rest = ap (λ n. drop n (body ++ rest)) (omega arith) ∙ drop-append body rest

walk-other :
    (f n kind : ℕ) (body : List ℕ) (found : Endpoints)
    → ltb n 2 || ltb (2 + length body) n ≡ false
    → (kind == type_endpoint) ≡ false
    → walk (suc f) (n ∷ kind ∷ body) found ≡ walk f (drop (n - 2) body) found
unfolding walk
walk-other f n kind body found fits other = rw (fits, other, walk) refl

walk-endpoint :
    (f n kind : ℕ) (body : List ℕ) (found : Endpoints)
    → ltb n 2 || ltb (2 + length body) n ≡ false
    → (kind == type_endpoint) ≡ true
    → ltb n 7 ≡ false
    → (byte body 1 % 4 == 2) ≡ true
    → walk (suc f) (n ∷ kind ∷ body) found
      ≡ walk f (drop (n - 2) body) (set_endpoint (byte body 0) (word body 2) found)
unfolding walk
walk-endpoint f n kind body found fits is long bulk = rw (fits, is, long, bulk, walk) refl

walk-bytes_of :
    (items : List Item) (fuel : ℕ) (found : Endpoints)
    → AreItems items
    → length items ≤ fuel
    → walk fuel (bytes_of items) found ≡ endpoints (sizes_of items found)
unfolding walk
walk-bytes_of [] zero found a h = refl
walk-bytes_of [] (suc f) found a h = refl
walk-bytes_of (item ∷ items) zero found a h = ground arith
walk-bytes_of (item ∷ items) (suc f) found a h =
    let rest = bytes_of items in
    let n = 2 + length item.body in
    let body = item.body ++ rest in
    let fits = item_fits item.body rest in
    let skip = skip_item item.body rest in
    elim (Bool-cases (item.kind == type_endpoint)) [
      | inr other ↦ rw other (
          walk-other f n item.kind body found fits other
          ∙ ap (λ b. walk f b found) skip
          ∙ walk-bytes_of items f found a.1 (omega arith))
      | inl is ↦
          let kind : item.kind ≡ type_endpoint = ground arith in
          let long = a.0.long kind in
          let enough : ltb n 7 ≡ false = ground (arith, long) in
          let b0 = byte-append item.body rest 0 (omega arith) in
          let b1 = byte-append item.body rest 1 (omega arith) in
          let b2 = byte-append item.body rest 2 (omega arith) in
          let b3 = byte-append item.body rest 3 (omega arith) in
          let bulk : (byte body 1 % 4 == 2) ≡ true = ground (arith, b1, a.0.bulk kind) in
          let sizes = ap₂ (λ k v. set_endpoint k v found) b0 (ap₂ (λ x y. x + 256 * y) b2 b3) in
          rw is (
            walk-endpoint f n item.kind body found fits is enough bulk
            ∙ ap₂ (λ b k. walk f b k) skip sizes
            ∙ walk-bytes_of items f (set_endpoint (byte item.body 0) (word item.body 2) found) a.1
                (omega arith))
    ]

-- What a walk that ends has gone over.
pub record IsWalked (bytes : List ℕ) (found e : Endpoints) : Type 0 where
  pub items : List Item
  pub split : bytes ≡ bytes_of items
  pub are_items : AreItems items
  pub sizes : e ≡ sizes_of items found

-- The item at the front.
first_item : (n kind : ℕ) (body : List ℕ) → Item
first_item n kind body = record { kind = kind; body = take (n - 2) body }

IsWalked-first :
    (n kind : ℕ) (body : List ℕ) (found e : Endpoints)
    → 2 ≤ n
    → n ≤ 2 + length body
    → IsItem (first_item n kind body)
    → IsWalked (drop (n - 2) body) (sizes_of (first_item n kind body ∷ []) found) e
    → IsWalked (n ∷ kind ∷ body) found e
unfolding first_item
IsWalked-first n kind body found e low high item w = record {
  items = record { kind = kind; body = take (n - 2) body } ∷ w.items;
  split =
      ap₂ (λ m l. m ∷ kind ∷ l) (omega (arith, length-take (n - 2) body (omega arith)))
        (sym (take-drop (n - 2) body) ∙ ap (λ l. take (n - 2) body ++ l) w.split);
  are_items = (item, w.are_items);
  sizes = w.sizes;
}

endpoints-injective : {a b : Endpoints} → endpoints a ≡ endpoints b → a ≡ b
endpoints-injective h = cc

walk-IsWalked :
    (fuel : ℕ) (bytes : List ℕ) (found e : Endpoints)
    → walk fuel bytes found ≡ endpoints e
    → IsWalked bytes found e
unfolding walk first_item
walk-IsWalked fuel [] found e h = record {
  items = [];
  split = refl;
  are_items = tt;
  sizes = sym (endpoints-injective h);
}
walk-IsWalked zero (b ∷ bs) found e h = cc
walk-IsWalked (suc f) (n ∷ []) found e h = cc
walk-IsWalked (suc f) (n ∷ kind ∷ body) found e h =
    elim (Bool-cases (ltb n 2 || ltb (2 + length body) n)) [
      | inl bad_length ↦ let h' = rw (bad_length, walk) at h in cc
      | inr fits ↦ elim (Bool-cases (kind == type_endpoint)) [
        | inr other ↦
            IsWalked-first n kind body found e (ground arith) (ground arith)
              (record { long = λ k. ground arith; bulk = λ k. ground arith })
              (rw other (
                walk-IsWalked f (drop (n - 2) body) found e
                  (sym (walk-other f n kind body found fits other) ∙ h)))
        | inl is ↦ elim (Bool-cases (ltb n 7)) [
          | inl short ↦ let h' = rw (fits, is, short, walk) at h in cc
          | inr long ↦ elim (Bool-cases (byte body 1 % 4 == 2)) [
            | inr not_bulk ↦ let h' = rw (fits, is, long, not_bulk, walk) at h in cc
            | inl bulk ↦
                let b0 = byte-take (n - 2) body 0 (ground arith) in
                let b1 = byte-take (n - 2) body 1 (ground arith) in
                let b2 = byte-take (n - 2) body 2 (ground arith) in
                let b3 = byte-take (n - 2) body 3 (ground arith) in
                IsWalked-first n kind body found e (ground arith) (ground arith)
                  (record {
                    long = λ k. ground (arith, length-take (n - 2) body);
                    bulk = λ k. ground (arith, b1);
                  })
                  (rw (is, b0, b2, b3)
                    (walk-IsWalked f (drop (n - 2) body) _ e
                      (sym (walk-endpoint f n kind body found fits is long bulk) ∙ h)))
          ]
        ]
      ]
    ]

length-bytes_of : (items : List Item) → length items ≤ length (bytes_of items)
length-bytes_of [] = omega arith
length-bytes_of (item ∷ items) =
    omega (arith, length-append item.body (bytes_of items), length-bytes_of items)

-- A descriptor of a type: its header has the length 9, the type and the length of the whole, and
-- the whole is a sequence of items, the header first.
pub record IsDescriptor (expected_type : ℕ) (bytes : List ℕ) (e : Endpoints) : Type 0 where
  pub long : 9 ≤ length bytes
  pub header : byte bytes 0 ≡ 9
  pub kind : byte bytes 1 ≡ expected_type
  pub total : word bytes 2 ≡ length bytes
  pub walked : IsWalked bytes [] e

module _ (bytes : List ℕ) (expected_type : ℕ) (e : Endpoints) where
  abbrev bad_header : Bool
  bad_header =
      ltb (length bytes) 9 || not (byte bytes 0 == 9) || not (byte bytes 1 == expected_type)

  IsDescriptor-sound :
      descriptor_endpoints bytes expected_type ≡ endpoints e → IsDescriptor expected_type bytes e
  unfolding descriptor_endpoints
  IsDescriptor-sound h = elim (Bool-cases bad_header) [
    | inl bad_is ↦ let h' = rw (bad_is, descriptor_endpoints) at h in cc
    | inr good ↦ elim (Bool-cases (word bytes 2 == length bytes)) [
      | inr wrong ↦ let h' = rw (good, wrong, descriptor_endpoints) at h in cc
      | inl total ↦ record {
        long = ground arith;
        header = ground arith;
        kind = ground arith;
        total = ground arith;
        walked =
            walk-IsWalked (length bytes) bytes [] e (rw (good, total, descriptor_endpoints) at h);
      }
    ]
  ]

  IsDescriptor-complete :
      IsDescriptor expected_type bytes e → descriptor_endpoints bytes expected_type ≡ endpoints e
  unfolding descriptor_endpoints
  IsDescriptor-complete d =
      let good : bad_header ≡ false = ground (arith, d.long, d.header, d.kind) in
      let total : (word bytes 2 == length bytes) ≡ true = ground (arith, d.total) in
      let w = d.walked in
      let enough : length w.items ≤ length bytes =
        subst (λ b. length w.items ≤ length b) (sym w.split) (length-bytes_of w.items) in
      rw (good, total, descriptor_endpoints)
        (ap (λ b. walk (length bytes) b []) w.split
          ∙ walk-bytes_of w.items (length bytes) [] w.are_items enough
          ∙ ap endpoints (sym w.sizes))

  -- The function returns a dictionary exactly if the bytes are a descriptor of the type, a sequence
  -- of items of which every endpoint is a bulk endpoint, and the dictionary has the packet sizes of
  -- the endpoints, set in their order.
  pub descriptor_endpoints-IsDescriptor :
      (descriptor_endpoints bytes expected_type ≡ endpoints e) ↔ IsDescriptor expected_type bytes e
  descriptor_endpoints-IsDescriptor = (IsDescriptor-sound, IsDescriptor-complete)
