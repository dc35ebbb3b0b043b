-- ===== src/Json/Encode/Printable.antt =====
-- What `json.dumps` writes is visible ASCII: it holds no newline, and its UTF-8 form is itself.
use mathlib.Core.Logic.{dif_pos, dif_neg}
use mathlib.Core.WellFounded.{Acc}
use native.Mathlib.Bridge.{le_prop}
use native.Mathlib.Decide.{dec_lt}
use ttop_desk.Prelude.{
  ℕ, suc, ◌+◌, ◌-◌, ◌/◌, ◌%◌, ◌<◌, ◌≤◌, ◌≡◌, refl, true, false, ◌&&◌, Option, none, some,
  Bool-cases, inl, inr, [], ◌∷◌, ◌++◌, Text, ℤ, pos, negsuc, ltb, leb, arith, All-append,
}
use ttop_desk.Python.Exceptions.{Result, ok, err, ◌>>=◌}
use ttop_desk.Python.Runtime.{nan, infinite, finite, Runtime, IsPrintable}
use ttop_desk.Json.{
  Json, null, bool, int, float, str, arr, obj, Items, end_items, item, Fields, end_fields, field,
}
use ttop_desk.Json.Encode.{
  accessible, emit, short_escape, escape_as, decimal, int_text, hex_digit, unicode_escape, escape,
  escape_all, quote, dumps, dumps_items, dumps_fields,
}

append-IsPrintable : (a b : Text) → IsPrintable a → IsPrintable b → IsPrintable (a ++ b)
append-IsPrintable = All-append (λ c. (32 ≤ c) × (c ≤ 126))

emit-IsPrintable :
    (n : ℕ) (w : Acc ◌<◌ n) (out : Text) → IsPrintable out → IsPrintable (emit n w out)
unfolding emit
emit-IsPrintable n (Acc.intro _ smaller) out h = elim (dec_lt n 10) [
  | yes p ↦ rw (dif_pos (dec_lt n 10) le_prop p _ _) ((omega arith, omega arith), h)
  | no p ↦
      rw (dif_neg (dec_lt n 10) p _ _) (
        emit-IsPrintable (n / 10) (smaller (n / 10) (omega arith)) _
          ((omega arith, omega arith), h))
]

int_text-IsPrintable : (z : ℤ) → IsPrintable (int_text z)
unfolding int_text decimal
int_text-IsPrintable (pos n) = emit-IsPrintable n (accessible n) [] tt
int_text-IsPrintable (negsuc n) =
    ((omega arith, omega arith), emit-IsPrintable (suc n) (accessible (suc n)) [] tt)

hex_digit_bounds : (d : ℕ) → d < 16 → (32 ≤ hex_digit d) × (hex_digit d ≤ 126)
hex_digit_bounds d h = ground arith

unicode_escape-IsPrintable : (c : ℕ) → IsPrintable (unicode_escape c)
unfolding unicode_escape
unicode_escape-IsPrintable c = (
  (omega arith, omega arith),
  (
    (omega arith, omega arith),
    (
      hex_digit_bounds (c / 4096 % 16) (omega arith),
      (
        hex_digit_bounds (c / 256 % 16) (omega arith),
        (
          hex_digit_bounds (c / 16 % 16) (omega arith),
          (hex_digit_bounds (c % 16) (omega arith), tt),
        ),
      ),
    ),
  ),
)

short_escape_bounds : (c letter : ℕ) → short_escape c ≡ some letter → (32 ≤ letter) × (letter ≤ 126)
unfolding short_escape
short_escape_bounds c letter h = ground arith

escape_as-IsPrintable :
    (o : Option ℕ) (c : ℕ)
    → ((letter : ℕ) → o ≡ some letter → (32 ≤ letter) × (letter ≤ 126))
    → IsPrintable (escape_as o c)
unfolding escape_as
escape_as-IsPrintable (some letter) c h = ((omega arith, omega arith), (h letter refl, tt))
escape_as-IsPrintable none c h = elim (Bool-cases (leb 32 c && leb c 126)) [
  | inl e ↦ rw e ((ground arith, ground arith), tt)
  | inr e ↦ rw e (elim (Bool-cases (ltb c 65536)) [
    | inl e ↦ rw e (unicode_escape-IsPrintable c)
    | inr e ↦ rw e (
        append-IsPrintable _ _ (unicode_escape-IsPrintable (55296 + (c - 65536) / 1024 % 1024))
          (unicode_escape-IsPrintable (56320 + c % 1024)))
  ])
]

escape-IsPrintable : (c : ℕ) → IsPrintable (escape c)
unfolding escape
escape-IsPrintable c = escape_as-IsPrintable (short_escape c) c (short_escape_bounds c)

escape_all-IsPrintable : (s : Text) → IsPrintable (escape_all s)
unfolding escape_all
escape_all-IsPrintable [] = tt
escape_all-IsPrintable (c ∷ cs) =
    append-IsPrintable (escape c) (escape_all cs) (escape-IsPrintable c) (escape_all-IsPrintable cs)

quote-IsPrintable : (s : Text) → IsPrintable (quote s)
unfolding quote
quote-IsPrintable s = (
  (omega arith, omega arith),
  append-IsPrintable (escape_all s) (34 ∷ []) (escape_all-IsPrintable s)
      ((omega arith, omega arith), tt),
)

abbrev pub Prints : Result Text → Type 0
Prints (ok t) = IsPrintable t
Prints (err _) = Unit

joined :
    (first rest : Result Text) (f : Text → Text → Text)
    → ((a b : Text) → IsPrintable a → IsPrintable b → IsPrintable (f a b))
    → Prints first
    → Prints rest
    → Prints (first >>= λ a. rest >>= λ b. ok (f a b))
joined (ok a) (ok b) f h p q = h a b p q
joined (ok a) (err e) f h p q = tt
joined (err e) rest f h p q = tt

-- an element behind a mark, and a field behind a mark and its key
after_mark :
    (c : ℕ)
    → 32 ≤ c
    → c ≤ 126
    → (a b : Text) → IsPrintable a
    → IsPrintable b
    → IsPrintable (c ∷ (a ++ b))
after_mark c lo hi a b p q = ((lo, hi), append-IsPrintable a b p q)

after_key :
    (c : ℕ) (k : Text)
    → 32 ≤ c
    → c ≤ 126
    → (a b : Text) → IsPrintable a
    → IsPrintable b
    → IsPrintable (c ∷ (quote k ++ 58 ∷ (a ++ b)))
after_key c k lo hi a b p q = (
  (lo, hi),
  append-IsPrintable (quote k) (58 ∷ (a ++ b)) (quote-IsPrintable k)
      (after_mark 58 (omega arith) (omega arith) a b p q),
)

module _ {F : Type 0} ⦃n : Runtime F⦄ where
  mutual
    unfolding dumps

    dumps-Prints_of : (v : Json F) → Prints (dumps v)
    dumps-Prints_of null = omega arith
    dumps-Prints_of (bool true) = omega arith
    dumps-Prints_of (bool false) = omega arith
    dumps-Prints_of (int z) = int_text-IsPrintable z
    dumps-Prints_of (float nan) = tt
    dumps-Prints_of (float (infinite s)) = tt
    dumps-Prints_of (float (finite a)) = n.repr-IsPrintable a
    dumps-Prints_of (str s) = quote-IsPrintable s
    dumps-Prints_of (arr end_items) = omega arith
    dumps-Prints_of (arr (item v vs)) =
        joined (dumps v) (dumps_items vs) (λ a b. 91 ∷ (a ++ b))
          (after_mark 91 (omega arith) (omega arith)) (dumps-Prints_of v) (dumps_items-Prints vs)
    dumps-Prints_of (obj end_fields) = omega arith
    dumps-Prints_of (obj (field k v fs)) =
        joined (dumps v) (dumps_fields fs) (λ a b. 123 ∷ (quote k ++ 58 ∷ (a ++ b)))
          (after_key 123 k (omega arith) (omega arith)) (dumps-Prints_of v) (dumps_fields-Prints fs)

    dumps_items-Prints : (vs : Items F) → Prints (dumps_items vs)
    dumps_items-Prints end_items = omega arith
    dumps_items-Prints (item v vs) =
        joined (dumps v) (dumps_items vs) (λ a b. 44 ∷ (a ++ b))
          (after_mark 44 (omega arith) (omega arith)) (dumps-Prints_of v) (dumps_items-Prints vs)

    dumps_fields-Prints : (fs : Fields F) → Prints (dumps_fields fs)
    dumps_fields-Prints end_fields = omega arith
    dumps_fields-Prints (field k v fs) =
        joined (dumps v) (dumps_fields fs) (λ a b. 44 ∷ (quote k ++ 58 ∷ (a ++ b)))
          (after_key 44 k (omega arith) (omega arith)) (dumps-Prints_of v) (dumps_fields-Prints fs)

  -- The text of any value is visible ASCII.
  pub dumps-Prints : (v : Json F) → Prints (dumps v)
  dumps-Prints v = dumps-Prints_of v
