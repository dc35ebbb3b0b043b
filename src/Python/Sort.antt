-- ===== src/Python/Sort.antt =====
-- `sorted(xs, key=...)` and `list.sort`: the stable ascending rearrangement for a test `<`, the
-- comparison of tuples, and the laws under which the result does not depend on the input's order.
pub mod Laws
use ttop_desk.Prelude.{
  ◌≡◌, ◌⊎◌, Bool, true, false, not, ◌&&◌, List, [], ◌∷◌, arith, All, if◌then◌else◌,
}

-- What `<` and `==` answer on a type.
pub record Comparison (A : Type 0) : Type 0 where
  pub lt : A → A → Bool
  pub eq : A → A → Bool

-- `<` is asymmetric, "not greater" is transitive, and `==` holds where neither side is less.
pub record IsLinear {A : Type 0} (c : Comparison A) : Type 0 where
  pub asym : (a b : A) → c.lt a b ≡ true → c.lt b a ≡ false
  pub trans : (a b d : A) → c.lt b a ≡ false → c.lt d b ≡ false → c.lt d a ≡ false
  pub eq_lem : (a b : A) → c.eq a b ≡ (not (c.lt a b) && not (c.lt b a))

-- Tuples: the first place where the two differ by `==` decides.
unfoldable pub tuple_order : {A B : Type 0} → Comparison A → Comparison B → Comparison (A × B)
tuple_order c d = record {
  lt = λ p q. if c.eq p.0 q.0 then d.lt p.1 q.1 else c.lt p.0 q.0;
  eq = λ p q. c.eq p.0 q.0 && d.eq p.1 q.1;
}

module _ {A B : Type 0} {c : Comparison A} {d : Comparison B} (C : IsLinear c)
    (D : IsLinear d) where
  pub tuple_order-IsLinear : IsLinear (tuple_order c d)
  unfolding tuple_order
  tuple_order-IsLinear = record {
    asym =
        λ p q h. ground (arith, C.asym p.0 q.0, C.eq_lem p.0 q.0, C.eq_lem q.0 p.0, D.asym p.1 q.1);
    trans = λ p q r h k. ground (
      arith,
      C.asym p.0 q.0,
      C.asym q.0 r.0,
      C.asym p.0 r.0,
      C.eq_lem p.0 q.0,
      C.eq_lem q.0 p.0,
      C.eq_lem q.0 r.0,
      C.eq_lem r.0 q.0,
      C.eq_lem r.0 p.0,
      C.eq_lem p.0 r.0,
      C.trans p.0 q.0 r.0,
      C.trans r.0 q.0 p.0,
      C.trans q.0 r.0 p.0,
      C.trans r.0 p.0 q.0,
      D.trans p.1 q.1 r.1,
    );
    eq_lem =
        λ p q. ground (arith, C.eq_lem p.0 q.0, C.eq_lem q.0 p.0, D.eq_lem p.1 q.1, C.asym p.0 q.0);
  }

module _ {ℓ} {A : Type ℓ} (lt : A → A → Bool) where
  -- An element goes before the first one that is not less: ties keep their order.
  pub insert_sorted : A → List A → List A
  insert_sorted x [] = x ∷ []
  insert_sorted x (y ∷ ys) = if lt y x then y ∷ insert_sorted x ys else x ∷ y ∷ ys

  unfoldable pub sorted : List A → List A
  unfolding insert_sorted
  sorted [] = []
  sorted (x ∷ xs) = insert_sorted x (sorted xs)

  -- No element is less than an earlier one.
  abbrev pub IsSorted : List A → Type ℓ
  IsSorted [] = Unit
  IsSorted (x ∷ xs) = All (λ y. lt y x ≡ false) xs × IsSorted xs

  -- One of the two is strictly less.
  abbrev pub Apart : A → A → Type 0
  Apart a b = (lt a b ≡ true) ⊎ (lt b a ≡ true)

  -- Any two elements are apart.
  abbrev pub AllApart : List A → Type ℓ
  AllApart [] = Unit
  AllApart (x ∷ xs) = All (λ y. Apart x y) xs × AllApart xs
