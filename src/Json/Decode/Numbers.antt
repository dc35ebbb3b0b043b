-- ===== src/Json/Decode/Numbers.antt =====
-- The integers that `json.dumps` writes are read back.
use mathlib.Core.Logic.{dif_pos, dif_neg}
use mathlib.Core.WellFounded.{Acc}
use native.Mathlib.Decide.{dec_lt}
use native.Mathlib.Bridge.{le_prop}
use ttop_desk.Prelude.{
  true, ℕ, suc, ◌+◌, ◌/◌, ◌%◌, ◌<◌, ◌≤◌, ◌≡◌, inl, inr, refl, ap, sym, ◌∙◌, false, some, [], ◌∷◌,
  Text, text_eq, All, arith, ◌==◌, leb, Bool-cases, if◌then◌else◌, ℤ, pos, negsuc, neg_ℤ,
}
use ttop_desk.Python.Runtime.{Runtime}
use ttop_desk.Json.{int}
use ttop_desk.Json.Encode.{emit, accessible, decimal, int_text}
use ttop_desk.Json.Lexer.{mark, is_space}
use ttop_desk.Json.Lexer.Words.{IsWordChar}
use ttop_desk.Json.Decode.{
  Numeral, start, minus, leading_zero, digits, read_digit, is_digit, numeral, magnitude, int_value,
  number, scalar, has_few_digits,
}

abbrev IsDigit : ℕ → Type 0
IsDigit c = (48 ≤ c) × (c ≤ 57)

-- The state after the decimal digits of n.
abbrev first_state : ℕ → Numeral
first_state n = if n == 0 then leading_zero else digits

read_digit-start : (d : ℕ) → d < 10 → read_digit start (48 + d) ≡ first_state d
unfolding read_digit is_digit
read_digit-start d h = ground arith

read_digit-minus : (d : ℕ) → d < 10 → read_digit minus (48 + d) ≡ first_state d
unfolding read_digit is_digit
read_digit-minus d h = ground arith

read_digit-digits : (d : ℕ) → d < 10 → read_digit digits (48 + d) ≡ digits
unfolding read_digit is_digit
read_digit-digits d h = ground arith

-- What holds of the digits of n before `out`.
record IsDecimal (n : ℕ) (out emitted : Text) : Type 0 where
  all_digits : All IsDigit out → All IsDigit emitted
  from_start : numeral start emitted ≡ numeral (first_state n) out
  from_minus : numeral minus emitted ≡ numeral (first_state n) out
  value : magnitude 0 emitted ≡ magnitude n out
  head : ℕ
  tail : Text
  is_cons : emitted ≡ head ∷ tail

first_state_of : (n : ℕ) → ((n == 0) ≡ false) → first_state n ≡ digits
first_state_of n h = rw h refl

one-IsDecimal : (n : ℕ) (out : Text) → n < 10 → IsDecimal n out ((48 + n) ∷ out)
unfolding numeral magnitude
one-IsDecimal n out h = record {
  all_digits = λ ds. ((omega arith, omega arith), ds);
  from_start = ap (λ s. numeral s out) (read_digit-start n h);
  from_minus = ap (λ s. numeral s out) (read_digit-minus n h);
  value = ap (λ m. magnitude m out) (omega arith);
  head = 48 + n;
  tail = out;
  is_cons = refl;
}

more-IsDecimal :
    (n : ℕ) (out emitted : Text)
    → 9 < n
    → IsDecimal (n / 10) ((48 + n % 10) ∷ out) emitted
    → IsDecimal n out emitted
unfolding numeral magnitude
more-IsDecimal n out emitted h r =
    let short : first_state (n / 10) ≡ digits = first_state_of (n / 10) (ground arith) in
    let long : first_state n ≡ digits = first_state_of n (ground arith) in
    let next : numeral (first_state (n / 10)) ((48 + n % 10) ∷ out) ≡ numeral (first_state n) out =
      ap (λ s. numeral s ((48 + n % 10) ∷ out)) short
      ∙ ap (λ s. numeral s out) (read_digit-digits (n % 10) (omega arith) ∙ sym long) in
    record {
      all_digits = λ ds. r.all_digits ((omega arith, omega arith), ds);
      from_start = r.from_start ∙ next;
      from_minus = r.from_minus ∙ next;
      value = r.value ∙ ap (λ m. magnitude m out) (omega arith);
      head = r.head;
      tail = r.tail;
      is_cons = r.is_cons;
    }

emit-IsDecimal : (n : ℕ) (a : Acc ◌<◌ n) (out : Text) → IsDecimal n out (emit n a out)
unfolding emit
emit-IsDecimal n (Acc.intro _ smaller) out = elim (dec_lt n 10) [
  | yes h ↦ rw (dif_pos (dec_lt n 10) le_prop h _ _) (one-IsDecimal n out h)
  | no h ↦ rw (dif_neg (dec_lt n 10) h _ _) (
      more-IsDecimal n out _ (omega arith)
        (emit-IsDecimal (n / 10) (smaller (n / 10) (omega arith)) ((48 + n % 10) ∷ out)))
]

IsDigit→IsWordChar : (c : ℕ) → IsDigit c → IsWordChar c
unfolding mark is_space
IsDigit→IsWordChar c (h, k) = (ground arith, ground arith, ground arith)

digits-AreWordChars : (w : Text) → All IsDigit w → All IsWordChar w
digits-AreWordChars [] h = tt
digits-AreWordChars (c ∷ w) (h, hs) = (IsDigit→IsWordChar c h, digits-AreWordChars w hs)

decimal-IsDecimal : (n : ℕ) → IsDecimal n [] (decimal n)
unfolding decimal
decimal-IsDecimal n = emit-IsDecimal n (accessible n) []

neg_ℤ-suc : (m : ℕ) → neg_ℤ (pos (suc m)) ≡ negsuc m
neg_ℤ-suc m = let e : leb (suc m) 0 ≡ false = ground arith in rw e (ap negsuc (omega arith))

IsWordChar-minus : IsWordChar 45
unfolding mark is_space
IsWordChar-minus = (refl, refl, refl)

-- The text is one word, and it is read as the integer.
pub record IsRead (F : Type 0) ⦃n : Runtime F⦄ (z : ℤ) (w : Text) : Type 0 where
  pub head : ℕ
  pub tail : Text
  pub is_cons : w ≡ head ∷ tail
  pub are_chars : All IsWordChar w
  pub is_scalar : scalar {F = F} w ≡ some (int z)

module _ (F : Type 0) ⦃n : Runtime F⦄ where
  number_of_state :
      (w : Text) (m : ℕ)
      → has_few_digits w ≡ true
      → number {F = F} w (first_state m) ≡ some (int (int_value w))
  unfolding number
  number_of_state w m few = elim (Bool-cases (m == 0)) [
    | inl e ↦ rw e refl
    | inr e ↦ rw (e, few) refl
  ]

  scalar-digit :
      (c : ℕ) (cs : Text)
      → IsDigit c
      → scalar {F = F} (c ∷ cs) ≡ number (c ∷ cs) (numeral start (c ∷ cs))
  unfolding scalar text_eq
  scalar-digit c cs h = ground arith

  scalar-minus :
      (c : ℕ) (cs : Text)
      → IsDigit c
      → scalar {F = F} (45 ∷ c ∷ cs) ≡ number (45 ∷ c ∷ cs) (numeral start (45 ∷ c ∷ cs))
  unfolding scalar text_eq
  scalar-minus c cs h = ground arith

  natural-IsRead :
      (m : ℕ) (w : Text) → IsDecimal m [] w → has_few_digits w ≡ true → IsRead F (pos m) w
  unfolding int_value magnitude numeral
  natural-IsRead m [] d few = absurd (let e = d.is_cons in cc)
  natural-IsRead m (c ∷ cs) d few =
      let (h, hs) = d.all_digits tt in
      let v : int_value (c ∷ cs) ≡ pos m = ground (arith, d.value) in
      record {
        head = c;
        tail = cs;
        is_cons = refl;
        are_chars = digits-AreWordChars (c ∷ cs) (h, hs);
        is_scalar =
            scalar-digit c cs h
            ∙ ap (number (c ∷ cs)) d.from_start
            ∙ number_of_state (c ∷ cs) m few
            ∙ ap (λ z. some (int z)) v;
      }

  negative-IsRead :
      (m : ℕ) (w : Text)
      → IsDecimal (suc m) [] w
      → has_few_digits (45 ∷ w) ≡ true
      → IsRead F (negsuc m) (45 ∷ w)
  unfolding numeral read_digit int_value
  negative-IsRead m [] d few = absurd (let e = d.is_cons in cc)
  negative-IsRead m (c ∷ cs) d few =
      let (h, hs) = d.all_digits tt in
      let v : int_value (45 ∷ c ∷ cs) ≡ negsuc m = ap (λ k. neg_ℤ (pos k)) d.value ∙ neg_ℤ-suc m in
      record {
        head = 45;
        tail = c ∷ cs;
        is_cons = refl;
        are_chars = (IsWordChar-minus, digits-AreWordChars (c ∷ cs) (h, hs));
        is_scalar =
            scalar-minus c cs h
            ∙ ap (number (45 ∷ c ∷ cs)) d.from_minus
            ∙ number_of_state (45 ∷ c ∷ cs) (suc m) few
            ∙ ap (λ z. some (int z)) v;
      }

  pub int_text-IsRead : (z : ℤ) → has_few_digits (int_text z) ≡ true → IsRead F z (int_text z)
  unfolding int_text
  int_text-IsRead (pos m) few = natural-IsRead m (decimal m) (decimal-IsDecimal m) few
  int_text-IsRead (negsuc m) few =
      negative-IsRead m (decimal (suc m)) (decimal-IsDecimal (suc m)) few
