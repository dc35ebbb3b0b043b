-- ===== src/Gpu/Base/Laws.antt =====
-- The ranges of GPU values, and when their conversions raise nothing.
use ttop_desk.Prelude.{
  ℕ, ◌<◌, ◌^◌, ◌≡◌, refl, ◌∙◌, ap, true, false, ◌||◌, Option, none, some, ℤ, pos, negsuc, ltb_ℤ,
  leb_ℤ, ◌≤ℤ◌, arith, OnSome, OnSome-of, Option-cases, inl, inr, Bool-cases,
}
use mathlib.Core.Path.{subst}
use ttop_desk.Python.Exceptions.{ok, ◌>>=◌, >>=-eq-ok, Result-cases, is_ok, is_err}
use ttop_desk.Python.Runtime.{
  Float, nan, infinite, finite, Runtime, Value, int_value, to_float, lt_float, le_float_refl,
}
use ttop_desk.Gpu.Base.{
  MemoryValues, finite_number, keep_between, percentage, temperature_celsius, clamp, float_of,
  memory_of, memory_between, memory_values,
}

module _ {F : Type 0} ⦃n : Runtime F⦄ where
  abbrev pub IsBetween : ℤ → ℤ → F → Type 0
  IsBetween low high a = (n.le (n.lit low) a ≡ true) × (n.le a (n.lit high) ≡ true)

module _ (F : Type 0) ⦃n : Runtime F⦄ where
  low_end : IsBetween {F = F} (pos 0) (pos 100) (n.lit (pos 0))
  low_end = (le_float_refl (n.lit (pos 0)), ground (arith, n.le-lit (pos 0) (pos 100)))

  high_end : IsBetween {F = F} (pos 0) (pos 100) (n.lit (pos 100))
  high_end = (ground (arith, n.le-lit (pos 0) (pos 100)), le_float_refl (n.lit (pos 100)))

module _ {F : Type 0} ⦃n : Runtime F⦄ where
  keep_between-IsBetween :
      (low high : ℤ) (o : Option F) → OnSome (IsBetween low high) (keep_between low high o)
  keep_between-IsBetween low high none = tt
  keep_between-IsBetween low high (some a) =
      OnSome-of _ (keep_between low high (some a)) λ b e. ground arith

  -- Whatever it is given, the clamp is finite and from 0 to 100, also for an infinity and for
  -- not-a-number.
  pub clamp_bounded : (x : Float F) → (a : F) × (clamp x ≡ finite a) × IsBetween (pos 0) (pos 100) a
  unfolding clamp lt_float
  clamp_bounded nan = (n.lit (pos 100), ground (arith, n.le-lit (pos 100) (pos 0)), high_end F)
  clamp_bounded (infinite true) = (n.lit (pos 0), refl, low_end F)
  clamp_bounded (infinite false) =
      (n.lit (pos 100), ground (arith, n.le-lit (pos 100) (pos 0)), high_end F)
  clamp_bounded (finite a) = elim (Bool-cases (n.le (n.lit (pos 100)) a)) [
    | inl high ↦ (n.lit (pos 100), ground (arith, n.le-lit (pos 100) (pos 0)), high_end F)
    | inr low ↦ elim (Bool-cases (n.le a (n.lit (pos 0)))) [
      | inl down ↦ (n.lit (pos 0), ground arith, low_end F)
      | inr up ↦
          (a, ground arith, (n.le_total a (n.lit (pos 0)) up, n.le_total (n.lit (pos 100)) a low))
    ]
  ]

  -- What a provider promises of a device's memory.
  pub record IsMemoryValues (m : MemoryValues F) : Type 0 where
    pub used_low : pos 0 ≤ℤ m.memory_used_bytes
    pub used_high : m.memory_used_bytes ≤ℤ m.memory_total_bytes
    pub total_positive : pos 1 ≤ℤ m.memory_total_bytes
    pub percent : F
    pub percent_finite : m.memory_percent ≡ finite percent
    pub percent_bounded : IsBetween (pos 0) (pos 100) percent

  memory_of-IsMemoryValues :
      (u t : ℤ) (m : MemoryValues F) → memory_of u t ≡ ok (some m) → IsMemoryValues m
  unfolding memory_of
  memory_of-IsMemoryValues u t m h =
      elim (Bool-cases (leb_ℤ t (pos 0) || ltb_ℤ u (pos 0) || ltb_ℤ t u)) [
        | inl bad ↦ absurd (ground arith)
        | inr good ↦
            let computed : (float_of u >>= λ a. float_of t >>= λ b. ok (
                  some (record {
                    memory_used_bytes = u;
                    memory_total_bytes = t;
                    memory_percent = clamp (n.div (n.mul a (finite (n.lit (pos 100)))) b);
                  })))
                ≡ ok (some m) =
              ground arith in
            let (a, _, f) = >>=-eq-ok (float_of u) _ computed in
            let (b, _, g) = >>=-eq-ok (float_of t) _ f in
            let ratio = n.div (n.mul a (finite (n.lit (pos 100)))) b in
            let (p, e, between) = clamp_bounded ratio in
            let same : ◌≡◌ {A = MemoryValues F}
                (record {
                  memory_used_bytes = u;
                  memory_total_bytes = t;
                  memory_percent = clamp ratio;
                })
                m =
              ground arith in
            subst IsMemoryValues same (record {
              used_low = ground arith;
              used_high = ground arith;
              total_positive = ground arith;
              percent = p;
              percent_finite = e;
              percent_bounded = between;
            })
      ]

  -- Memory that is reported lies between zero and a positive total, and its percentage is finite
  -- and from 0 to 100.
  pub memory_values_bounded :
      (used total : Value F) (m : MemoryValues F)
      → memory_values used total ≡ ok (some m)
      → IsMemoryValues m
  unfolding memory_values
  memory_values_bounded used total m h =
      let (u, _, f) = >>=-eq-ok (finite_number used) _ h in
      let (t, _, g) = >>=-eq-ok (finite_number total) _ f in numbers u t g
    where
      numbers : (u t : Option F) → memory_between u t ≡ ok (some m) → IsMemoryValues m
      numbers (some u) (some t) g =
          memory_of-IsMemoryValues (n.trunc u) (n.trunc t) m (unfold memory_between in ground arith)
      numbers none t g = absurd (unfold memory_between in ground arith)
      numbers (some u) none g = absurd (unfold memory_between in ground arith)

  -- A native number below 2^64 has a double, so these conversions raise nothing.
  pub finite_number-small :
      (k : ℕ) → k < 2 ^ 64 → (a : F) × (finite_number (int_value (pos k)) ≡ ok (some a))
  unfolding finite_number to_float
  finite_number-small k h = elim (Option-cases (n.of_int (pos k))) [
    | inl e ↦ absurd (n.of_int_small k h e)
    | inr (a, e) ↦ (a, ground arith)
  ]

  pub percentage-small :
      (k : ℕ)
      → k < 2 ^ 64
      → (o : Option F) × (percentage (int_value (pos k)) ≡ ok o)
        × OnSome (IsBetween (pos 0) (pos 100)) o
  unfolding percentage
  percentage-small k h =
      let (a, e) = finite_number-small k h in
      (
        keep_between (pos 0) (pos 100) (some a),
        rw e refl,
        keep_between-IsBetween (pos 0) (pos 100) (some a),
      )

  pub temperature_celsius-small :
      (k : ℕ)
      → k < 2 ^ 64
      → (o : Option F) × (temperature_celsius (int_value (pos k)) ≡ ok o)
        × OnSome (IsBetween (negsuc 19) (pos 150)) o
  unfolding temperature_celsius
  temperature_celsius-small k h =
      let (a, e) = finite_number-small k h in
      (
        keep_between (negsuc 19) (pos 150) (some a),
        rw e refl,
        keep_between-IsBetween (negsuc 19) (pos 150) (some a),
      )

  float_of-trunc : (a : F) → (x : Float F) × (float_of (n.trunc a) ≡ ok x)
  unfolding float_of
  float_of-trunc a = elim (Option-cases (n.of_int (n.trunc a))) [
    | inl e ↦ absurd (n.of_int-trunc a e)
    | inr (b, e) ↦ (finite b, ground arith)
  ]

  memory_between-ok :
      (a b : F) → (o : Option (MemoryValues F)) × (memory_between (some a) (some b) ≡ ok o)
  unfolding memory_between memory_of
  memory_between-ok a b =
      let (x, p) = float_of-trunc a in
      let (y, q) = float_of-trunc b in
      elim (Result-cases (memory_between (some a) (some b))) [
        | is_ok o e ↦ (o, e)
        | is_err x e ↦ absurd (ground arith)
      ]

  pub memory_values-small :
      (k m : ℕ)
      → k < 2 ^ 64
      → m < 2 ^ 64
      → (o : Option (MemoryValues F)) × (memory_values (int_value (pos k)) (int_value (pos m))
          ≡ ok o)
        × OnSome IsMemoryValues o
  memory_values-small k m h h' =
      let (a, p) = finite_number-small k h in
      let (b, q) = finite_number-small m h' in
      let (o, r) = memory_between-ok a b in
      let whole : memory_values (int_value (pos k)) (int_value (pos m)) ≡ ok o =
        unfold memory_values in rw (p, q) r in
      (o, whole, OnSome-of _ o λ v e. memory_values_bounded _ _ v (whole ∙ ap ok e))
