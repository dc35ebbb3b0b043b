-- ===== src/Python/Sort/Laws.antt =====
-- What `sorted` promises: the same elements, in order, ties as they stood; and one result for all
-- arrangements of elements that are pairwise apart.
use mathlib.Core.List.{Perm, Permᴰ}
use mathlib.Core.List.Perm
use mathlib.Core.Path.{subst}
use ttop_desk.Prelude.{
  ◌≡◌, ◌≢◌, refl, sym, ap, ap₂, ◌∙◌, inl, inr, Bool, true, false, List, [], ◌∷◌, map, arith, All,
  take, All-take, ℕ, zero, suc, Bool-cases,
}
use ttop_desk.Python.Sort.{Comparison, IsLinear, insert_sorted, sorted, IsSorted, Apart, AllApart}

pub All-perm {ℓ κ} : {A : Type ℓ} (P : A → Type κ) {l r : List A} → Permᴰ l r → All P l → All P r
All-perm P Permᴰ.nil h = tt
All-perm P (Permᴰ.cons e p) h = (subst P e h.0, All-perm P p h.1)
All-perm P (Permᴰ.swap e f) h = (subst P f h.1.0, (subst P e h.0, h.1.1))
All-perm P (Permᴰ.trans p q) h = All-perm P q (All-perm P p h)

module _ {ℓ} {A : Type ℓ} (lt : A → A → Bool) where
  insert_sorted-perm : (x : A) (ys : List A) → Perm (insert_sorted lt x ys) (x ∷ ys)
  unfolding insert_sorted
  insert_sorted-perm x [] = Perm.refl _
  insert_sorted-perm x (y ∷ ys) = elim (Bool-cases (lt y x)) [
    | inl e ↦ rw e (Perm.trans (Perm.cons y (insert_sorted-perm x ys)) (Perm.swap x y ys))
    | inr e ↦ rw e (Perm.refl _)
  ]

  pub sorted-perm : (xs : List A) → Perm (sorted lt xs) xs
  unfolding sorted
  sorted-perm [] = Perm.refl []
  sorted-perm (x ∷ xs) =
      Perm.trans (insert_sorted-perm x (sorted lt xs)) (Perm.cons x (sorted-perm xs))

  All-insert_sorted {κ} :
      (P : A → Type κ) (x : A) (ys : List A) → P x → All P ys → All P (insert_sorted lt x ys)
  unfolding insert_sorted
  All-insert_sorted P x [] h k = (h, tt)
  All-insert_sorted P x (y ∷ ys) h k = elim (Bool-cases (lt y x)) [
    | inl e ↦ rw e (k.0, All-insert_sorted P x ys h k.1)
    | inr e ↦ rw e (h, k)
  ]

  pub All-sorted {κ} : (P : A → Type κ) (xs : List A) → All P xs → All P (sorted lt xs)
  unfolding sorted
  All-sorted P [] h = tt
  All-sorted P (x ∷ xs) h = All-insert_sorted P x (sorted lt xs) h.0 (All-sorted P xs h.1)

  -- A list in order is left as it is.
  insert_sorted-least :
      (x : A) (ys : List A) → All (λ y. lt y x ≡ false) ys → insert_sorted lt x ys ≡ x ∷ ys
  unfolding insert_sorted
  insert_sorted-least x [] h = refl
  insert_sorted-least x (y ∷ ys) h = rw (h.0)

  pub sorted_of_IsSorted : (xs : List A) → IsSorted lt xs → sorted lt xs ≡ xs
  unfolding sorted
  sorted_of_IsSorted [] h = refl
  sorted_of_IsSorted (x ∷ xs) h =
      ap (insert_sorted lt x) (sorted_of_IsSorted xs h.1) ∙ insert_sorted-least x xs h.0

  insert_sorted-nonempty : (x : A) (ys : List A) → insert_sorted lt x ys ≢ []
  unfolding insert_sorted
  insert_sorted-nonempty x [] h = cc
  insert_sorted-nonempty x (y ∷ ys) h = elim (Bool-cases (lt y x)) [
    | inl e ↦ absurd (ground arith)
    | inr e ↦ absurd (ground arith)
  ]

  -- Only the empty list is sorted to the empty list.
  pub sorted-eq_nil : (xs : List A) → sorted lt xs ≡ [] → xs ≡ []
  unfolding sorted
  sorted-eq_nil [] h = refl
  sorted-eq_nil (x ∷ xs) h = absurd (insert_sorted-nonempty x (sorted lt xs) h)

  pub IsSorted-take : (n : ℕ) (xs : List A) → IsSorted lt xs → IsSorted lt (take n xs)
  IsSorted-take zero xs h = tt
  IsSorted-take (suc n) [] h = tt
  IsSorted-take (suc n) (x ∷ xs) h = (All-take _ n xs h.0, IsSorted-take n xs h.1)

  module _ (asym : (a b : A) → lt a b ≡ true → lt b a ≡ false)
      (trans : (a b d : A) → lt b a ≡ false → lt d b ≡ false → lt d a ≡ false) where
    above_head :
        (x y : A) (ys : List A)
        → lt y x ≡ false
        → All (λ z. lt z y ≡ false) ys
        → All (λ z. lt z x ≡ false) ys
    above_head x y [] h k = tt
    above_head x y (z ∷ zs) h k = (trans x y z h k.0, above_head x y zs h k.1)

    insert_sorted-IsSorted :
        (x : A) (ys : List A) → IsSorted lt ys → IsSorted lt (insert_sorted lt x ys)
    unfolding insert_sorted
    insert_sorted-IsSorted x [] h = (tt, tt)
    insert_sorted-IsSorted x (y ∷ ys) h = elim (Bool-cases (lt y x)) [
      | inl e ↦ rw e (
        All-insert_sorted (λ z. lt z y ≡ false) x ys (asym y x e) h.0,
        insert_sorted-IsSorted x ys h.1,
      )
      | inr e ↦ rw e ((e, above_head x y ys e h.0), h)
    ]

    pub sorted-IsSorted : (xs : List A) → IsSorted lt (sorted lt xs)
    unfolding sorted
    sorted-IsSorted [] = tt
    sorted-IsSorted (x ∷ xs) = insert_sorted-IsSorted x (sorted lt xs) (sorted-IsSorted xs)

    -- Two elements that are apart may be inserted in either order.
    insert_sorted_comm :
        (x y : A) (l : List A)
        → lt x y ≡ true
        → insert_sorted lt x (insert_sorted lt y l) ≡ insert_sorted lt y (insert_sorted lt x l)
    unfolding insert_sorted
    insert_sorted_comm x y [] h = ground (arith, asym x y h)
    insert_sorted_comm x y (z ∷ zs) h =
        ground (arith, asym x y h, trans x y z, insert_sorted_comm x y zs h)

    Apart-symm : (x y : A) → Apart lt x y → Apart lt y x
    Apart-symm x y (inl h) = inr h
    Apart-symm x y (inr h) = inl h

    insert_sorted-comm-Apart :
        (x y : A) (l : List A)
        → Apart lt x y
        → insert_sorted lt x (insert_sorted lt y l) ≡ insert_sorted lt y (insert_sorted lt x l)
    insert_sorted-comm-Apart x y l (inl h) = insert_sorted_comm x y l h
    insert_sorted-comm-Apart x y l (inr h) = sym (insert_sorted_comm y x l h)

    -- The result is the same for every arrangement of a list whose elements are pairwise apart.
    pub sorted-eq_of_perm :
        {l r : List A} → Permᴰ l r → AllApart lt l → (sorted lt l ≡ sorted lt r) × AllApart lt r
    unfolding sorted
    sorted-eq_of_perm Permᴰ.nil h = (refl, tt)
    sorted-eq_of_perm (Permᴰ.cons {a} {b} {l₁} {l₂} e p) h =
        let (same, apart) = sorted-eq_of_perm p h.1 in
        (
          ap₂ (insert_sorted lt) e same,
          (subst (λ c. All (λ y. Apart lt c y) l₂) e (All-perm _ p h.0), apart),
        )
    sorted-eq_of_perm (Permᴰ.swap {a} {b} {a'} {b'} {l} e f) h = (
      rw (← e, ← f) (insert_sorted-comm-Apart a b (sorted lt l) h.0.0),
      subst (λ c. AllApart lt (c ∷ b' ∷ l)) f
          (subst (λ c. AllApart lt (b ∷ c ∷ l)) e ((Apart-symm a b h.0.0, h.1.0), (h.0.1, h.1.1))),
    )
    sorted-eq_of_perm (Permᴰ.trans p q) h =
        let (same, apart) = sorted-eq_of_perm p h in
        let (same', apart') = sorted-eq_of_perm q apart in (same ∙ same', apart')

module _ {ℓ κ} {A : Type ℓ} {B : Type κ} (lt : B → B → Bool) (f : A → B) where
  insert_sorted-map :
      (x : A) (xs : List A)
      → insert_sorted lt (f x) (map f xs) ≡ map f (insert_sorted (λ a b. lt (f a) (f b)) x xs)
  unfolding insert_sorted
  insert_sorted-map x [] = refl
  insert_sorted-map x (y ∷ ys) = elim (Bool-cases (lt (f y) (f x))) [
    | inl e ↦ rw e (ap (◌∷◌ (f y)) (insert_sorted-map x ys))
    | inr e ↦ rw e
  ]

  -- Sorting images is sorting by the order of the images.
  pub sorted-map : (xs : List A) → sorted lt (map f xs) ≡ map f (sorted (λ a b. lt (f a) (f b)) xs)
  unfolding sorted
  sorted-map [] = refl
  sorted-map (x ∷ xs) = ap (insert_sorted lt (f x)) (sorted-map xs) ∙ insert_sorted-map x _

pub map-snd {ℓ κ} :
    {A : Type ℓ} {K : Type κ} (key : A → K) (xs : List A)
    → map (λ (p : K × A). p.1) (map (λ a. (key a, a)) xs) ≡ xs
map-snd key [] = refl
map-snd key (x ∷ xs) = ap (◌∷◌ x) (map-snd key xs)

-- Two values that are not equal by `==` are apart.
pub Apart-of_ne :
    {A : Type 0} {c : Comparison A} (l : IsLinear c) (a b : A) → c.eq a b ≡ false → Apart c.lt a b
Apart-of_ne l a b h = ground (arith, l.eq_lem a b)
