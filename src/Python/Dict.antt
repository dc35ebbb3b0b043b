-- ===== src/Python/Dict.antt =====
-- A dict in insertion order, over any test of equality on its keys.
use ttop_desk.Prelude.{
  ◌≡◌, refl, ◌↔◌, All, Bool-cases, inl, inr, Bool, true, Option, none, some, List, [], ◌∷◌, ◌≤◌,
  ◌+◌, length, arith, if◌then◌else◌, ℤ, eqb_ℤ, eqb_ℤ_iff, Text, text_eq, text_eq_iff,
}

pub record Key (K : Type 0) : Type 0 where
  pub key_eq : K → K → Bool
  pub key_eq_iff : (a b : K) → (key_eq a b ≡ true) ↔ (a ≡ b)

instance abbrev pub int_key : Key ℤ
int_key = record { key_eq = eqb_ℤ; key_eq_iff = eqb_ℤ_iff }

instance abbrev pub text_key : Key Text
text_key = record { key_eq = text_eq; key_eq_iff = text_eq_iff }

module _ {K V : Type 0} ⦃k : Key K⦄ where
  -- `d.get(key)`
  unfoldable pub lookup : K → List (K × V) → Option V
  lookup key [] = none
  lookup key ((j, v) ∷ d) = if k.key_eq j key then some v else lookup key d

  -- `d[key] = v`
  unfoldable pub insert : K → V → List (K × V) → List (K × V)
  insert key v [] = (key, v) ∷ []
  insert key v ((j, w) ∷ d) = if k.key_eq j key then (j, v) ∷ d else (j, w) ∷ insert key v d

  pub lookup-insert :
      (key j : K) (v : V) (d : List (K × V))
      → lookup j (insert key v d) ≡ (if k.key_eq key j then some v else lookup j d)
  unfolding lookup insert
  lookup-insert key j v [] = refl
  lookup-insert key j v ((i, w) ∷ d) =
      ground
        (arith, k.key_eq_iff key j, k.key_eq_iff i key, k.key_eq_iff i j, lookup-insert key j v d)

  pub length-insert : (key : K) (v : V) (d : List (K × V)) → length (insert key v d) ≤ length d + 1
  unfolding insert
  length-insert key v [] = omega arith
  length-insert key v ((j, w) ∷ d) = ground (arith, length-insert key v d)

  pub All-insert-pair {κ} :
      (P : K × V → Type κ) (key : K) (v : V) (d : List (K × V))
      → P (key, v)
      → All P d
      → All P (insert key v d)
  unfolding insert
  All-insert-pair P key v [] h k' = (h, tt)
  All-insert-pair P key v ((j, w) ∷ d) h k' = elim (Bool-cases (k.key_eq j key)) [
    | inl e ↦ rw (e, (k.key_eq_iff j key).0 e) (h, k'.1)
    | inr e ↦ rw e (k'.0, All-insert-pair P key v d h k'.1)
  ]

  pub All-insert {κ} :
      (P : V → Type κ) (key : K) (v : V) (d : List (K × V))
      → P v
      → All (λ e. P e.1) d
      → All (λ e. P e.1) (insert key v d)
  unfolding insert
  All-insert P key v [] h k' = (h, tt)
  All-insert P key v ((j, w) ∷ d) h k' = elim (Bool-cases (k.key_eq j key)) [
    | inl e ↦ rw e (h, k'.1)
    | inr e ↦ rw e (k'.0, All-insert P key v d h k'.1)
  ]
