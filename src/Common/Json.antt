-- ===== src/Common/Json.antt =====
-- The values that `json.loads` returns, and the operations of Python that the scripts apply to
-- them. A finite float is the exact fraction `numerator / 2 ^ shift`.
use Prim.Native.Nat.{ℕ, suc, ◌*◌, ◌/◌, ◌^◌}
use Prim.Native.String.{String}
use mathlib.Core.Bool.{Bool, false}
use mathlib.Core.Option.{Option, none, some}
use text.Mathlib.Text.{◌==◌ as str_eq}
use hpm5321_can_analyzer.Common.Bools.{if◌then◌else◌}
use hpm5321_can_analyzer.Common.Int.{ℤ, pos, negsuc, sub_ℕ, eqb_ℤ}
use hpm5321_can_analyzer.Common.Text.{codes, int_of_text}
use hpm5321_can_analyzer.Common.Python.{
  Result, ok, raised, type_error, value_error, overflow_error, attribute_error,
}

mutual
  pub data Json : Type 0 where
    null : Json
    boolean : Bool → Json
    integer : ℤ → Json
    real : (numerator : ℤ) → (shift : ℕ) → Json
    nan : Json
    infinity : (negative : Bool) → Json
    string : String → Json
    list : Items → Json
    object : Fields → Json

  pub data Items : Type 0 where
    nil : Items
    cons : Json → Items → Items

  pub data Fields : Type 0 where
    end : Fields
    field : String → Json → Fields → Fields

-- `fields.get(name)`, where `none` is an absent key.
unfoldable pub get : String → Fields → Option Json
get name end = none
get name (field k v rest) = if str_eq k name then some v else get name rest

-- `fields.get(name, default)`
unfoldable pub get_or : Json → String → Fields → Json
unfolding get
get_or default name fields = elim (get name fields) [ none ↦ default | some v ↦ v ]

abbrev pub of_bool : Bool → ℕ
of_bool b = if b then 1 else 0

abbrev times : ℤ → ℕ → ℤ
times (pos n) k = pos (n * k)
times (negsuc n) k = sub_ℕ 0 (suc n * k)

-- `value == n` for an integer `n`: Python compares Booleans and floats with integers by value.
unfoldable pub eq_int : Json → ℤ → Bool
eq_int (boolean b) n = eqb_ℤ (pos (of_bool b)) n
eq_int (integer m) n = eqb_ℤ m n
eq_int (real m k) n = eqb_ℤ m (times n (2 ^ k))
eq_int _ n = false

-- `int(value)`; a float is cut towards zero.
unfoldable pub to_int : Json → Result ℤ
unfolding int_of_text
to_int (boolean b) = ok (pos (of_bool b))
to_int (integer n) = ok n
to_int (real (pos n) k) = ok (pos (n / 2 ^ k))
to_int (real (negsuc n) k) = ok (sub_ℕ 0 (suc n / 2 ^ k))
to_int (string s) = elim (int_of_text (codes s)) [ none ↦ raised value_error | some n ↦ ok n ]
to_int nan = raised value_error
to_int (infinity _) = raised overflow_error
to_int _ = raised type_error

-- The fields of a value on which `.get` is called: only an object has that method.
unfoldable pub as_object : Json → Result Fields
as_object (object fields) = ok fields
as_object _ = raised attribute_error
