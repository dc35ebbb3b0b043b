-- ===== src/Python/Runtime.antt =====
-- Dynamic values, floats and the conversions `float(x)` and `int(x)`. A float is not-a-number, an
-- infinity, or finite; the finite doubles and their rounding are the record `Runtime`.
pub mod Integers
use ttop_desk.Prelude.{
  ℕ, ◌<◌, ◌≤◌, ◌^◌, All, ◌≡◌, ◌≢◌, Bool, true, false, not, ◌&&◌, ◌||◌, Option, none, some, Text, ℤ,
  pos, neg_part, leb_ℤ, if◌then◌else◌, arith,
}
use ttop_desk.Python.Exceptions.{Result, ok, err, type_error, value_error, overflow_error}

pub data Float (F : Type 0) : Type 0 where
  nan : Float F
  infinite : Bool → Float F
  finite : F → Float F

-- Visible ASCII and the space.
abbrev pub IsPrintable : Text → Type 0
IsPrintable = All (λ c. (32 ≤ c) × (c ≤ 126))

-- What CPython and IEEE 754 provide over the finite doubles `F`.
pub record Runtime (F : Type 0) : Type 0 where
  -- `<=` on finite doubles
  pub le : F → F → Bool
  pub neg : F → F
  -- the literal `z.0`
  pub lit : ℤ → F
  pub add : Float F → Float F → Float F
  pub sub : Float F → Float F → Float F
  pub mul : Float F → Float F → Float F
  -- for a divisor other than zero
  pub div : Float F → Float F → Float F
  -- `float(z)`; `none` is an OverflowError
  pub of_int : ℤ → Option F
  -- `int(x)`
  pub trunc : F → ℤ
  -- `float(s)` and `int(s)` of a text; `none` is a ValueError
  pub parse_float : Text → Option (Float F)
  pub parse_int : Text → Option ℤ
  -- `repr(x)`
  pub repr : F → Text
  -- how deep the interpreter recurses before it raises RecursionError
  pub recursion_limit : ℕ
  pub le_total : (a b : F) → le a b ≡ false → le b a ≡ true
  pub le_trans : (a b c : F) → le a b ≡ true → le b c ≡ true → le a c ≡ true
  pub le-neg : (a b : F) → le (neg a) (neg b) ≡ le b a
  -- the literals that the sources write are exact
  pub le-lit : (a b : ℤ) → le (lit a) (lit b) ≡ leb_ℤ a b
  -- an integer below 2^64, and the whole part of a double, have a double near them
  pub of_int_small : (n : ℕ) → n < 2 ^ 64 → of_int (pos n) ≢ none
  pub of_int-trunc : (a : F) → of_int (trunc a) ≢ none
  pub trunc_nonneg : (a : F) → le (lit (pos 0)) a ≡ true → neg_part (trunc a) ≡ 0
  -- `repr` writes digits, signs, dots and letters
  pub repr-IsPrintable : (a : F) → IsPrintable (repr a)

-- An object that comes from outside: `none_value` is None, and `opaque` any object that is none
-- of the others and has no numeric conversion.
pub data Value (F : Type 0) : Type 0 where
  none_value opaque : Value F
  bool_value : Bool → Value F
  int_value : ℤ → Value F
  float_value : Float F → Value F
  str_value : Text → Value F

module _ {F : Type 0} ⦃n : Runtime F⦄ where
  abbrev pub zero_float : F
  zero_float = n.lit (pos 0)

  -- `a < b` and `a == b`
  abbrev pub lt_finite : F → F → Bool
  lt_finite a b = not (n.le b a)

  abbrev pub eq_finite : F → F → Bool
  eq_finite a b = n.le a b && n.le b a

  -- `a < b`: false where either is not a number
  unfoldable pub lt_float : Float F → Float F → Bool
  lt_float nan b = false
  lt_float a nan = false
  lt_float (infinite neg) (infinite neg') = neg && not neg'
  lt_float (infinite neg) (finite b) = neg
  lt_float (finite a) (infinite neg) = not neg
  lt_float (finite a) (finite b) = lt_finite a b

  -- `a <= b`
  unfoldable pub le_float : Float F → Float F → Bool
  le_float nan b = false
  le_float a nan = false
  le_float (infinite neg) (infinite neg') = neg || not neg'
  le_float (infinite neg) (finite b) = neg
  le_float (finite a) (infinite neg) = not neg
  le_float (finite a) (finite b) = n.le a b

  -- `float(value)`
  unfoldable pub to_float : Value F → Result (Float F)
  to_float none_value = err type_error
  to_float opaque = err type_error
  to_float (bool_value b) = ok (finite (n.lit (if b then pos 1 else pos 0)))
  to_float (int_value z) = elim (n.of_int z) [ none ↦ err overflow_error | some a ↦ ok (finite a) ]
  to_float (float_value x) = ok x
  to_float (str_value s) = elim (n.parse_float s) [ none ↦ err value_error | some x ↦ ok x ]

  -- `int(value)`
  unfoldable pub to_int : Value F → Result ℤ
  to_int none_value = err type_error
  to_int opaque = err type_error
  to_int (bool_value b) = ok (if b then pos 1 else pos 0)
  to_int (int_value z) = ok z
  to_int (float_value nan) = err value_error
  to_int (float_value (infinite _)) = err overflow_error
  to_int (float_value (finite a)) = ok (n.trunc a)
  to_int (str_value s) = elim (n.parse_int s) [ none ↦ err value_error | some z ↦ ok z ]

  pub le_float_refl : (a : F) → n.le a a ≡ true
  le_float_refl a = ground (arith, n.le_total a a)
