-- ===== src/Python/Runtime/Integers.antt =====
-- A runtime whose only finite floats are the integers, with unbounded range: the assumptions of
-- `Runtime` can be met, and the models run on it.
use ttop_desk.Prelude.{
  ◌+◌, ◌/◌, ◌≡◌, refl, none, some, text, ℤ, pos, negsuc, leb_ℤ, neg_ℤ, ◌+ℤ◌, ◌-ℤ◌, ◌*ℤ◌, arith,
}
use ttop_desk.Python.Runtime.{Float, nan, finite, Runtime}

-- An operation on finite operands; with any other the result is left as not-a-number.
abbrev pub lift : (ℤ → ℤ → ℤ) → Float ℤ → Float ℤ → Float ℤ
lift f (finite a) (finite b) = finite (f a b)
lift f _ _ = nan

-- division of the magnitudes, towards zero
abbrev pub quotient : ℤ → ℤ → ℤ
quotient (pos a) (pos b) = pos (a / b)
quotient (pos a) (negsuc b) = neg_ℤ (pos (a / (b + 1)))
quotient (negsuc a) (pos b) = neg_ℤ (pos ((a + 1) / b))
quotient (negsuc a) (negsuc b) = pos ((a + 1) / (b + 1))

pub neg-order : (a b : ℤ) → leb_ℤ (neg_ℤ a) (neg_ℤ b) ≡ leb_ℤ b a
neg-order a b = ground arith

instance abbrev pub integers : Runtime ℤ
integers = record {
  le = leb_ℤ;
  neg = neg_ℤ;
  lit = λ z. z;
  add = lift ◌+ℤ◌;
  sub = lift ◌-ℤ◌;
  mul = lift ◌*ℤ◌;
  div = lift quotient;
  of_int = λ z. some z;
  trunc = λ a. a;
  parse_float = λ s. none;
  parse_int = λ s. none;
  repr = λ a. text "0.0";
  recursion_limit = 1000;
  le_total = λ a b h. ground arith;
  le_trans = λ a b c h k. ground arith;
  le-neg = neg-order;
  le-lit = λ a b. refl;
  of_int_small = λ a h e. cc;
  of_int-trunc = λ a e. cc;
  trunc_nonneg = λ a h. ground arith;
  repr-IsPrintable = λ a. omega arith;
}
