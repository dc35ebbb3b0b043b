-- ===== src/Python/Actions.antt =====
-- Statements that act on a state and may raise.
use ttop_desk.Prelude.{◌≡◌, refl}
use ttop_desk.Python.Exceptions.{Result, ok, err}

-- The next statement, which an exception skips.
abbrev pub and_then {ℓ κ μ} :
    {A : Type ℓ} {B : Type κ} {W : Type μ} → Result A × W → (A → W → Result B × W) → Result B × W
and_then (ok a, w) f = f a w
and_then (err e, w) f = (err e, w)

-- The statement returns, and its value satisfies `P`.
abbrev pub Returns : {A W : Type 0} → (A → Type 0) → Result A × W → Type 0
Returns P (ok a, w) = P a
Returns P (err e, w) = ⊥

pub Returns-and_then :
    {A B W : Type 0} (P : A → Type 0) (Q : B → Type 0) (m : Result A × W) (f : A → W → Result B × W)
    → Returns P m
    → ((a : A) (w : W) → P a → Returns Q (f a w))
    → Returns Q (and_then m f)
Returns-and_then P Q (ok a, w) f h k = k a w h
Returns-and_then P Q (err e, w) f h k = absurd h

pub Returns-eq_ok :
    {A W : Type 0} (P : A → Type 0) (m : Result A × W) → Returns P m → (a : A) × (m.0 ≡ ok a) × P a
Returns-eq_ok P (ok a, w) h = (a, refl, h)
Returns-eq_ok P (err e, w) h = absurd h
