-- ===== src/EventLoss/Canonical.antt =====
-- The canonical form of a list of ranges and the comparison of two merged lists
-- (scripts/phase3/reconcile_p3b_backpressure.py, `merge_ranges` and `reconcile`).
use hpm5321_can_analyzer.Common.{
  ℕ, ◌+◌, ◌≤◌, ◌<◌, ◌≡◌, refl, sym, ◌∙◌, ap, ap₂, ◌↔◌, true, false, List, [], ◌∷◌, arith,
}
use hpm5321_can_analyzer.EventLoss.Ranges.{Range, merge_ranges}
use hpm5321_can_analyzer.EventLoss.Merge.{
  covers, AreRanges, IsSeparated, merge_ranges-IsSeparated, covers-merge_ranges,
}

-- What a separated list covers is not below its bound.
pub covers-le : (n x : ℕ) (rs : List Range) → IsSeparated n rs → covers x rs ≡ true → n ≤ x
unfolding covers
covers-le n x [] s c = cc
covers-le n x (r ∷ rs) s c = ground (arith, covers-le (r.last + 2) x rs s.2)

-- Two lists that cover the same sequences.
abbrev pub SameCover : List Range → List Range → Type 0
SameCover rs ss = (x : ℕ) → covers x rs ≡ covers x ss

not_covers_below : (n x : ℕ) (rs : List Range) → IsSeparated n rs → x < n → covers x rs ≡ false
not_covers_below n x rs s h = ground (arith, covers-le n x rs s)

covers_first : (r : Range) (rs : List Range) → r.first ≤ r.last → covers r.first (r ∷ rs) ≡ true
unfolding covers
covers_first r rs h = ground arith

heads_first :
    (n m : ℕ) (a b : Range) (us vs : List Range)
    → IsSeparated n (a ∷ us)
    → IsSeparated m (b ∷ vs)
    → SameCover (a ∷ us) (b ∷ vs)
    → b.first ≤ a.first
heads_first n m a b us vs p q h =
    let c : covers a.first (b ∷ vs) ≡ true = sym (h a.first) ∙ covers_first a us p.1 in
    covers-le b.first a.first (b ∷ vs) (omega arith, q.1, q.2) c

heads_last :
    (n m : ℕ) (a b : Range) (us vs : List Range)
    → IsSeparated n (a ∷ us)
    → IsSeparated m (b ∷ vs)
    → a.first ≡ b.first
    → SameCover (a ∷ us) (b ∷ vs)
    → b.last ≤ a.last
unfolding covers
heads_last n m a b us vs p q e h =
    ground (arith, h (a.last + 1), not_covers_below (a.last + 2) (a.last + 1) us p.2)

tails_SameCover :
    (n m : ℕ) (a b : Range) (us vs : List Range)
    → IsSeparated n (a ∷ us)
    → IsSeparated m (b ∷ vs)
    → a.first ≡ b.first
    → a.last ≡ b.last
    → SameCover (a ∷ us) (b ∷ vs)
    → SameCover us vs
unfolding covers
tails_SameCover n m a b us vs p q e f h x =
    ground
      (arith, h x, not_covers_below (a.last + 2) x us p.2, not_covers_below (b.last + 2) x vs q.2)

range_eq : (a b : Range) → a.first ≡ b.first → a.last ≡ b.last → a ≡ b
range_eq a b p q = λ i. record { first = p i; last = q i }

not_nil : (r : Range) (rs : List Range) → r.first ≤ r.last → SameCover (r ∷ rs) [] → ⊥
unfolding covers
not_nil r rs h same = ground (arith, same r.first)

pub IsSeparated-unique :
    (n m : ℕ) (rs ss : List Range) → IsSeparated n rs → IsSeparated m ss → SameCover rs ss → rs ≡ ss
IsSeparated-unique n m [] [] p q h = refl
IsSeparated-unique n m [] (b ∷ vs) p q h = absurd (not_nil b vs q.1 (λ x. sym (h x)))
IsSeparated-unique n m (a ∷ us) [] p q h = absurd (not_nil a us p.1 h)
IsSeparated-unique n m (a ∷ us) (b ∷ vs) p q h =
    let first_eq : a.first ≡ b.first =
      omega
        (arith, heads_first n m a b us vs p q h, heads_first m n b a vs us q p (λ x. sym (h x))) in
    let last_eq : a.last ≡ b.last = omega (
      arith,
      heads_last n m a b us vs p q first_eq h,
      heads_last m n b a vs us q p (sym first_eq) (λ x. sym (h x)),
    ) in
    ap₂ ◌∷◌ (range_eq a b first_eq last_eq) (
      IsSeparated-unique (a.last + 2) (b.last + 2) us vs p.2 q.2
        (tails_SameCover n m a b us vs p q first_eq last_eq h))

-- Two lists of ranges merge to the same list exactly if they cover the same sequences.
pub merge_ranges-eq_iff :
    (rs ss : List Range)
    → AreRanges rs
    → AreRanges ss
    → (merge_ranges rs ≡ merge_ranges ss) ↔ SameCover rs ss
merge_ranges-eq_iff rs ss h k = (
  λ e x. sym (covers-merge_ranges x rs) ∙ ap (covers x) e ∙ covers-merge_ranges x ss,
  λ same.
      IsSeparated-unique 0 0 (merge_ranges rs) (merge_ranges ss) (merge_ranges-IsSeparated rs h)
        (merge_ranges-IsSeparated ss k)
        (λ x. covers-merge_ranges x rs ∙ same x ∙ sym (covers-merge_ranges x ss)),
)
