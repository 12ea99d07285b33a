-- ===== src/Common/Python.antt =====
-- Python results: a value or one of the exceptions that the scripts raise, and rows of
-- `csv.DictReader`.
use Prim.Native.String.{String}
use mathlib.Core.Path.{◌≡◌, refl}
use mathlib.Core.Logic.{◌⊎◌, inl, inr}
use mathlib.Core.Option.{Option, none, some}
use mathlib.Core.List.{List, [], ◌∷◌}
use text.Mathlib.Text.{◌==◌ as str_eq}
use hpm5321_can_analyzer.Common.Bools.{if◌then◌else◌}
use hpm5321_can_analyzer.Common.Int.{ℤ}
use hpm5321_can_analyzer.Common.Text.{codes, int_of_text}

pub data PyError : Type 0 where
  key_error value_error type_error attribute_error overflow_error csv_error os_error : PyError

-- What a function returns or raises.
pub data Result {ℓ} (Value : Type ℓ) : Type ℓ where
  raised : PyError → Result Value
  ok : Value → Result Value

infixl 5 ◌>>=◌
abbrev pub ◌>>=◌ {ℓ κ} :
    {Value : Type ℓ} {Next : Type κ} → Result Value → (Value → Result Next) → Result Next
raised exception >>= next = raised exception
ok value >>= next = next value

-- A cell is `none` where the row is shorter than the header.
abbrev pub Row : Type 0
Row = List (String × Option String)

-- `row[name]`
unfoldable pub cell : Row → String → Result (Option String)
cell [] name = raised key_error
cell ((k, v) ∷ row) name = if str_eq k name then ok v else cell row name

-- `int(value)` of a cell: `int(None)` is a TypeError.
unfoldable pub int_of_cell : Option String → Result ℤ
unfolding int_of_text
int_of_cell none = raised type_error
int_of_cell (some s) = elim (int_of_text (codes s)) [ none ↦ raised value_error | some n ↦ ok n ]

-- `int(row[name])`
unfoldable pub int_field : Row → String → Result ℤ
unfolding cell int_of_cell
int_field row name = do v ← cell row name; int_of_cell v

pub Result-cases {ℓ} :
    {Value : Type ℓ} (r : Result Value)
    → ((value : Value) × (r ≡ ok value)) ⊎ ((e : PyError) × (r ≡ raised e))
Result-cases (raised e) = inr (e, refl)
Result-cases (ok value) = inl (value, refl)

-- A chain that returns has returned at each step.
pub bind_returns {ℓ κ} :
    {Value : Type ℓ} {Next : Type κ} {out : Next} (first : Result Value)
    (next : Value → Result Next)
    → (first >>= next) ≡ ok out
    → (value : Value) × (first ≡ ok value) × (next value ≡ ok out)
bind_returns (raised e) next h = cc
bind_returns (ok value) next h = (value, refl, h)

pub ok-injective {ℓ} : {Value : Type ℓ} {a b : Value} → ok a ≡ ok b → a ≡ b
ok-injective h = cc
