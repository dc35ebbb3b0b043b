-- ===== src/Images/Differences.antt =====
-- The comparison of two images of one size.
use ttop_desk.Prelude.{
  ℕ, suc, ◌+◌, ◌≤◌, ◌≡◌, refl, ◌↔◌, List, [], ◌∷◌, length, ◌-ℤ◌, ltb, if◌then◌else◌, arith,
}
use ttop_desk.Images.{Pixel, Difference, compare, delta_between, distance, larger}

distance_self : (a : ℕ) → distance a a ≡ 0
unfolding ◌-ℤ◌
distance_self a = ground arith

distance_comm : (a b : ℕ) → distance a b ≡ distance b a
unfolding ◌-ℤ◌
distance_comm a b = ground arith

-- No pixel differs by more than the tolerance exactly when the greatest difference is within it,
-- and no more pixels differ than there are.
pub compare_within :
    (tolerance : ℕ) (baseline candidate : List Pixel)
    → (((compare tolerance baseline candidate).different ≡ 0)
        ↔ ((compare tolerance baseline candidate).maximum_delta ≤ tolerance))
      × ((compare tolerance baseline candidate).different ≤ length baseline)
unfolding compare
compare_within t [] qs = (((λ e. omega arith), (λ e. refl)), omega arith)
compare_within t (p ∷ ps) [] = (((λ e. omega arith), (λ e. refl)), omega arith)
compare_within t (p ∷ ps) (q ∷ qs) =
    let (iff, few) = compare_within t ps qs in step (delta_between p q) (compare t ps qs) iff few
  where
    step :
        (delta : ℕ) (rest : Difference)
        → (rest.different ≡ 0) ↔ (rest.maximum_delta ≤ t)
        → rest.different ≤ length ps
        → ((((if ltb t delta then 1 else 0) + rest.different ≡ 0))
            ↔ (larger delta rest.maximum_delta ≤ t))
          × ((if ltb t delta then 1 else 0) + rest.different ≤ suc (length ps))
    step delta rest iff few = (((λ e. ground arith), (λ e. ground arith)), ground arith)

-- An image does not differ from itself.
pub compare_self :
    (tolerance : ℕ) (image : List Pixel)
    → compare tolerance image image ≡ record { different = 0; maximum_delta = 0 }
unfolding compare
compare_self t [] = refl
compare_self t (p ∷ ps) =
    rw
      (
        distance_self p.red,
        distance_self p.green,
        distance_self p.blue,
        distance_self p.alpha,
        compare_self t ps,
      )
      (ground arith)

-- It does not matter which of two images is the baseline.
pub compare_comm :
    (tolerance : ℕ) (baseline candidate : List Pixel)
    → compare tolerance baseline candidate ≡ compare tolerance candidate baseline
unfolding compare
compare_comm t [] [] = refl
compare_comm t [] (q ∷ qs) = refl
compare_comm t (p ∷ ps) [] = refl
compare_comm t (p ∷ ps) (q ∷ qs) = rw (
  distance_comm p.red q.red,
  distance_comm p.green q.green,
  distance_comm p.blue q.blue,
  distance_comm p.alpha q.alpha,
  compare_comm t ps qs,
)
