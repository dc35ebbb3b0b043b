-- ===== src/Gpu/Base.antt =====
-- backend/ttop_backend/gpu/base.py: the values that a provider may report.
pub mod Laws
use ttop_desk.Prelude.{
  ◌≡◌, Bool, true, false, not, ◌&&◌, ◌||◌, Option, none, some, ℤ, pos, negsuc, ltb_ℤ, leb_ℤ,
  if◌then◌else◌,
}
use ttop_desk.Python.Exceptions.{Result, ok, err, overflow_error, ◌>>=◌}
use ttop_desk.Python.Runtime.{
  Float, nan, infinite, finite, Runtime, Value, none_value, opaque, bool_value, int_value,
  float_value, str_value, to_float, lt_finite, lt_float, zero_float,
}

pub record MemoryValues (F : Type 0) : Type 0 where
  pub memory_used_bytes : ℤ
  pub memory_total_bytes : ℤ
  pub memory_percent : Float F

module _ {F : Type 0} ⦃n : Runtime F⦄ where
  -- `isinstance(value, Real)`, a bool excepted
  abbrev pub is_number : Value F → Bool
  is_number (int_value _) = true
  is_number (float_value _) = true
  is_number _ = false

  abbrev pub keep_finite : Float F → Option F
  keep_finite (finite a) = some a
  keep_finite _ = none

  unfoldable pub finite_number : Value F → Result (Option F)
  finite_number value =
      if not (is_number value) then ok none else do number ← to_float value; ok (keep_finite number)

  abbrev pub keep_between : ℤ → ℤ → Option F → Option F
  keep_between low high none = none
  keep_between low high (some a) =
      if lt_finite a (n.lit low) || lt_finite (n.lit high) a then none else some a

  unfoldable pub percentage : Value F → Result (Option F)
  percentage value = do number ← finite_number value; ok (keep_between (pos 0) (pos 100) number)

  unfoldable pub temperature_celsius : Value F → Result (Option F)
  temperature_celsius value = do
    number ← finite_number value
    ok (keep_between (negsuc 19) (pos 150) number)

  -- `max(0.0, min(100.0, x))`, which keeps the first of two that do not compare
  unfoldable pub clamp : Float F → Float F
  clamp x =
      let least = (if lt_float x (finite (n.lit (pos 100))) then x else finite (n.lit (pos 100))) in
      if lt_float (finite zero_float) least then least else finite zero_float

  -- an int as an operand of float arithmetic
  unfoldable pub float_of : ℤ → Result (Float F)
  float_of z = elim (n.of_int z) [ none ↦ err overflow_error | some a ↦ ok (finite a) ]

  unfoldable pub memory_of : ℤ → ℤ → Result (Option (MemoryValues F))
  memory_of used_bytes total_bytes =
      if leb_ℤ total_bytes (pos 0) || ltb_ℤ used_bytes (pos 0) || ltb_ℤ total_bytes used_bytes
      then ok none
      else do
        used ← float_of used_bytes
        total ← float_of total_bytes
        ok (
            some (record {
              memory_used_bytes = used_bytes;
              memory_total_bytes = total_bytes;
              memory_percent = clamp (n.div (n.mul used (finite (n.lit (pos 100)))) total);
            }))

  unfoldable pub memory_between : Option F → Option F → Result (Option (MemoryValues F))
  memory_between (some used_number) (some total_number) =
      if lt_finite used_number zero_float
        || n.le total_number zero_float
        || lt_finite total_number used_number
      then ok none
      else memory_of (n.trunc used_number) (n.trunc total_number)
  memory_between _ _ = ok none

  unfoldable pub memory_values : Value F → Value F → Result (Option (MemoryValues F))
  memory_values used total = do
    used_number ← finite_number used
    total_number ← finite_number total
    memory_between used_number total_number
