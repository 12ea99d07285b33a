-- ===== src/Heartbeat/ReadBack.antt =====
-- A printed record under `parse_sample`
-- (scripts/phase2/collect_heartbeat.py, `_sample_target` and `parse_sample`).
use hpm5321_can_analyzer.Common.{
  ℕ, ◌≡◌, refl, ◌∙◌, sym, ap, fun_ext, String, Bool, true, false, not, ◌&&◌, Option, none, some,
  List, [], ◌∷◌, ◌++◌, arith,
}
use mathlib.Core.List.{append_assoc}
use hpm5321_can_analyzer.Common.Int.{ℤ}
use hpm5321_can_analyzer.Common.Text.{codes}
use hpm5321_can_analyzer.Heartbeat.Sample.{
  Field, Kind, Sample, groups, literal, number, match_groups, search_groups, nth, index,
  is_hex_digit, ◌>>=◌, parse_sample,
}
use hpm5321_can_analyzer.Heartbeat.Printed.{
  Conversion, print_conversion, formats, print_format, values, print_sample, AllFit,
}
use hpm5321_can_analyzer.Heartbeat.Numbers.{Stops, kind_of, number-print}

literal-append : (ls rest : List ℕ) → literal ls (ls ++ rest) ≡ some rest
unfolding literal
literal-append [] rest = refl
literal-append (l ∷ ls) rest = ground (arith, literal-append ls rest)

-- A part of the pattern or of the format: its text and its digits.
abbrev Part : Type 0
Part = List ℕ × Kind

abbrev pattern_parts : (before : List ℕ) → List (String × Kind) → List Part
pattern_parts before [] = []
pattern_parts before ((name, kind) ∷ gs) =
    (before ++ codes name, kind) ∷ pattern_parts (codes " ") gs

abbrev format_parts : List (String × Conversion) → List Part
format_parts [] = []
format_parts ((text, conversion) ∷ fs) = (codes text, kind_of conversion) ∷ format_parts fs

-- The pattern and the format have the same texts, and digits that fit each other.
same_parts : pattern_parts (codes "P2_SAMPLE ") groups ≡ format_parts formats
same_parts = refl

abbrev match_parts : List Part → List ℕ → Option (List ℤ)
match_parts [] cs = some []
match_parts ((text, kind) ∷ ps) cs = do
  digits_at ← literal text cs
  (value, after) ← number kind digits_at
  values ← match_parts ps after
  some (value ∷ values)

then_then :
    {A B C : Type 0} (o : Option A) (f : A → Option B) (g : B → Option C)
    → (o >>= f >>= g) ≡ (o >>= λ a. f a >>= g)
then_then none f g = refl
then_then (some a) f g = refl

literal-join :
    (ls ms cs : List ℕ) → literal (ls ++ ms) cs ≡ (literal ls cs >>= λ after. literal ms after)
unfolding literal
literal-join [] ms cs = refl
literal-join (l ∷ ls) ms [] = refl
literal-join (l ∷ ls) ms (c ∷ cs) = ground (arith, literal-join ls ms cs)

match_groups-parts :
    (before : List ℕ) (gs : List (String × Kind)) (cs : List ℕ)
    → match_groups before gs cs ≡ match_parts (pattern_parts before gs) cs
unfolding match_groups
match_groups-parts before [] cs = refl
match_groups-parts before ((name, kind) ∷ gs) cs =
    let next = λ (m : List ℕ → Option (List ℤ)) (digits_at : List ℕ).
      number kind digits_at >>= λ x. m x.1 >>= λ values. some (x.0 ∷ values) in
    let rest = fun_ext (match_groups-parts (codes " ") gs) in
    ap (λ m. literal before cs >>= λ after. literal (codes name) after >>= next m) rest
    ∙ sym (
        ap (λ o. o >>= next (match_parts (pattern_parts (codes " ") gs)))
          (literal-join before (codes name) cs)
        ∙ then_then (literal before cs) (literal (codes name)) _)

-- The text begins with a character that is not a digit.
abbrev begins_apart : List ℕ → Bool
begins_apart [] = false
begins_apart (c ∷ cs) = not (is_hex_digit c)

abbrev all_apart : List (String × Conversion) → Bool
all_apart [] = true
all_apart ((text, conversion) ∷ fs) = begins_apart (codes text) && all_apart fs

begins_apart-Stops : (ts rest : List ℕ) → begins_apart ts ≡ true → Stops (ts ++ rest)
begins_apart-Stops [] rest h = absurd (ground arith)
begins_apart-Stops (c ∷ cs) rest h = ground arith

print_format-Stops :
    (fs : List (String × Conversion)) (vs : List ℤ) (rest : List ℕ)
    → all_apart fs ≡ true
    → AllFit fs vs
    → Stops (print_format fs vs ++ rest)
unfolding print_format
print_format-Stops [] vs rest h f = refl
print_format-Stops (g ∷ fs) [] rest h f = absurd f
print_format-Stops ((text, conversion) ∷ fs) (v ∷ vs) rest h f =
    rw append_assoc (begins_apart-Stops (codes text) _ (ground arith))

-- Printed parts are matched, and the values come back.
match_parts-print :
    (fs : List (String × Conversion)) (vs : List ℤ) (rest : List ℕ)
    → all_apart fs ≡ true
    → AllFit fs vs
    → match_parts (format_parts fs) (print_format fs vs ++ rest) ≡ some vs
unfolding print_format
match_parts-print [] [] rest h f = refl
match_parts-print [] (v ∷ vs) rest h f = absurd f
match_parts-print (g ∷ fs) [] rest h f = absurd f
match_parts-print ((text, conversion) ∷ fs) (v ∷ vs) rest h f =
    let tail = print_format fs vs ++ rest in
    let apart : all_apart fs ≡ true = ground arith in
    let after : number (kind_of conversion) (print_conversion conversion v ++ tail)
        ≡ some (v, tail) =
      number-print conversion v tail f.0 (print_format-Stops fs vs rest apart f.1) in
    simp (append_assoc, literal-append, after, match_parts-print fs vs rest apart f.1)

no_match : (vs : List ℤ) → match_groups (codes "P2_SAMPLE ") groups [] ≡ some vs → ⊥
unfolding match_groups literal
no_match vs h = cc

-- A match at the front is what the search finds.
search_groups-front :
    (cs : List ℕ) (vs : List ℤ)
    → match_groups (codes "P2_SAMPLE ") groups cs ≡ some vs
    → search_groups cs ≡ some vs
unfolding search_groups
search_groups-front [] vs h = absurd (no_match vs h)
search_groups-front (c ∷ cs) vs h = rw (h, search_groups) refl

nth-values : (s : Sample) (f : Field) → nth (values s) (index f) ≡ s f
nth-values s Field.boot = refl
nth-values s _ = refl

-- The printed record of values that the format can print is read back as the same sample, whatever
-- text follows it.
pub parse-print_sample :
    (s : Sample) (rest : List ℕ)
    → AllFit formats (values s)
    → parse_sample (print_sample s ++ rest) ≡ some s
unfolding parse_sample print_sample
parse-print_sample s rest f =
    let found : search_groups (print_sample s ++ rest) ≡ some (values s) =
      search_groups-front (print_sample s ++ rest) (values s) (
        match_groups-parts (codes "P2_SAMPLE ") groups _
        ∙ ap (λ ps. match_parts ps (print_sample s ++ rest)) same_parts
        ∙ match_parts-print formats (values s) rest refl f) in
    rw (found, parse_sample) (ap some (fun_ext (nth-values s)))
