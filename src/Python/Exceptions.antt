-- ===== src/Python/Exceptions.antt =====
-- Exceptions as values, and statements that may raise and that act on a state.
use mathlib.Core.Path.{subst}
use ttop_desk.Prelude.{
  ◌≡◌, refl, arith, Option, none, some, if◌then◌else◌, Bool, true, false, Text, All, map, List, [],
  ◌∷◌,
}

-- The classes that a handler of the sources names. `protocol_error` carries its code; the
-- subclasses of `psutil.Error` are told apart, `struct.error` and `zlib.error` are
-- classes of their own; `other_error` is any other `Exception`.
pub data Exception : Type 0 where
  attribute_error type_error value_error overflow_error zero_division os_error : Exception
  no_such_process access_denied zombie_process psutil_error : Exception
  runtime_error assertion_error struct_error zlib_error other_error : Exception
  protocol_error : Text → Exception

pub data Result {ℓ} (A : Type ℓ) : Type ℓ where
  ok : A → Result A
  err : Exception → Result A

module _ {ℓ κ} {A : Type ℓ} {B : Type κ} where
  infixl 5 ◌>>=◌
  abbrev pub ◌>>=◌ : Result A → (A → Result B) → Result B
  err raised >>= next = err raised
  ok value >>= next = next value

  pub >>=-eq-ok :
      (m : Result A) (next : A → Result B) {b : B}
      → (m >>= next) ≡ ok b
      → (a : A) × (m ≡ ok a) × (next a ≡ ok b)
  >>=-eq-ok (err raised) next h = cc
  >>=-eq-ok (ok value) next h = (value, refl, h)

pub ok-injective {ℓ} : {A : Type ℓ} {a b : A} → ok a ≡ ok b → a ≡ b
ok-injective h = cc

pub data ResultCases {ℓ} {A : Type ℓ} (r : Result A) : Type ℓ where
  is_ok : (a : A) → r ≡ ok a → ResultCases r
  is_err : (e : Exception) → r ≡ err e → ResultCases r

-- The value of an attempt, or the exception that ends it, with the equation.
pub Result-cases {ℓ} : {A : Type ℓ} (r : Result A) → ResultCases r
Result-cases (ok a) = is_ok a refl
Result-cases (err e) = is_err e refl

-- `[f(x) for x in xs]`, which stops at the first exception.
unfoldable pub map_result {ℓ κ} :
    {A : Type ℓ} {B : Type κ} → (A → Result B) → List A → Result (List B)
map_result f [] = ok []
map_result f (x ∷ xs) = do y ← f x; ys ← map_result f xs; ok (y ∷ ys)

-- The lists have one length, and `R` holds place by place.
abbrev pub AllPairs {ℓ κ} : {A : Type ℓ} {B : Type κ} → (A → B → Type 0) → List A → List B → Type 0
AllPairs R [] [] = Unit
AllPairs R (x ∷ xs) (y ∷ ys) = R x y × AllPairs R xs ys
AllPairs R [] (_ ∷ _) = ⊥
AllPairs R (_ ∷ _) [] = ⊥

-- The attempts return these values exactly when each returns its own.
module _ {ℓ} {A : Type ℓ} {B : Type 0} (f : A → Result B) where
  ok-injected :
      (y : B) (ys zs : List B) → ◌≡◌ {A = Result (List B)} (ok (y ∷ ys)) (ok zs) → y ∷ ys ≡ zs
  ok-injected y ys zs h = ground arith

  pub map_result→AllPairs :
      (xs : List A) (ys : List B) → map_result f xs ≡ ok ys → AllPairs (λ x y. f x ≡ ok y) xs ys
  unfolding map_result
  map_result→AllPairs [] [] h = tt
  map_result→AllPairs [] (y ∷ ys) h = absurd (ground arith)
  map_result→AllPairs (x ∷ xs) ys h =
      let (y, first, k) = >>=-eq-ok (f x) _ h in
      let (zs, rest, e) = >>=-eq-ok (map_result f xs) _ k in
      subst (AllPairs (λ x y. f x ≡ ok y) (x ∷ xs)) (ok-injected y zs ys e)
        (first, map_result→AllPairs xs zs rest)

  pub AllPairs→map_result :
      (xs : List A) (ys : List B) → AllPairs (λ x y. f x ≡ ok y) xs ys → map_result f xs ≡ ok ys
  unfolding map_result
  AllPairs→map_result [] [] h = refl
  AllPairs→map_result [] (y ∷ ys) h = elim h [ ]
  AllPairs→map_result (x ∷ xs) [] h = elim h [ ]
  AllPairs→map_result (x ∷ xs) (y ∷ ys) h = rw (h.0, AllPairs→map_result xs ys h.1) refl

-- A statement without a value, and then another.
infixl 5 ◌>>◌
abbrev pub ◌>>◌ {κ} : {B : Type κ} → Result {0} Unit → Result B → Result B
first >> second = first >>= λ _. second

-- `if test: raise e`
abbrev pub raise_if : Bool → Exception → Result (Unit {0})
raise_if true e = err e
raise_if false e = ok tt

-- The value, where there is one.
abbrev pub or_raise {ℓ} : {A : Type ℓ} → Exception → Option A → Result A
or_raise e none = err e
or_raise e (some a) = ok a

pub or_raise-eq_ok {ℓ} :
    {A : Type ℓ} (e : Exception) (o : Option A) {a : A} → or_raise e o ≡ ok a → o ≡ some a
or_raise-eq_ok e none h = cc
or_raise-eq_ok e (some b) h = ground arith

-- Statements after a test are reached only if it failed, and their value is the value.
pub raise_if-passed {ℓ} :
    {A : Type ℓ} (b : Bool) (e : Exception) (next : Result A) {a : A}
    → (raise_if b e >>= λ _. next) ≡ ok a
    → (b ≡ false) × (next ≡ ok a)
raise_if-passed true e next h = cc
raise_if-passed false e next h = (refl, h)

-- Whatever `r` raises satisfies `P`, with the rules for the statements of a `do` block.
abbrev pub RaisesOnly {ℓ κ} : {A : Type ℓ} → (Exception → Type κ) → Result A → Type (ℓ ⊔ κ)
RaisesOnly P r = (e : Exception) → r ≡ err e → P e

module _ {κ} (P : Exception → Type κ) where
  pub RaisesOnly-err {ℓ} : {A : Type ℓ} (x : Exception) → P x → RaisesOnly {A = A} P (err x)
  RaisesOnly-err {A} x h e p = subst P (injected p) h
    where
      injected : ◌≡◌ {A = Result A} (err x) (err e) → x ≡ e
      injected q = ground arith

  pub RaisesOnly-ok {ℓ} : {A : Type ℓ} (a : A) → RaisesOnly P (ok a)
  RaisesOnly-ok a e p = cc

  pub RaisesOnly-raise_if : (b : Bool) (x : Exception) → P x → RaisesOnly P (raise_if b x)
  RaisesOnly-raise_if true x h = RaisesOnly-err x h
  RaisesOnly-raise_if false x h = RaisesOnly-ok tt

  pub RaisesOnly-bind {ℓ μ} :
      {A : Type ℓ} {B : Type μ} (r : Result A) (f : A → Result B)
      → RaisesOnly P r
      → ((a : A) → RaisesOnly P (f a))
      → RaisesOnly P (r >>= f)
  RaisesOnly-bind (ok a) f h k = k a
  RaisesOnly-bind (err x) f h k = RaisesOnly-err x (h x refl)

-- `try: a = ... except caught: a = None`
unfoldable pub caught {ℓ} : {A : Type ℓ} → (Exception → Bool) → Result A → Result (Option A)
caught handles (ok a) = ok (some a)
caught handles (err e) = if handles e then ok none else err e

pub map_result-ok {ℓ κ} :
    {A : Type ℓ} {B : Type κ} (f : A → Result B) (g : A → B) (xs : List A)
    → All (λ x. f x ≡ ok (g x)) xs
    → map_result f xs ≡ ok (map g xs)
unfolding map_result
map_result-ok f g [] h = refl
map_result-ok f g (x ∷ xs) h = rw (h.0, map_result-ok f g xs h.1)

pub caught-eq_ok {ℓ} :
    {A : Type ℓ} (handles : Exception → Bool) (r : Result A) (o : Option A)
    → caught handles r ≡ ok o
    → (a : A) → o ≡ some a
    → r ≡ ok a
unfolding caught
caught-eq_ok handles (ok b) o h a e = ground arith
caught-eq_ok handles (err x) o h a e = ground arith
