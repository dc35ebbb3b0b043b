-- ===== src/Images/Filters.antt =====
-- The filters of the PNG standard, written as an encoder has them, and `read_png` as their inverse.
use ttop_desk.Prelude.{
  ℕ, zero, suc, ◌+◌, ◌-◌, ◌/◌, ◌%◌, ◌≤◌, ◌<◌, ◌≡◌, refl, sym, ◌∙◌, ap, inl, inr, ◌&&◌, some, List,
  [], ◌∷◌, ◌++◌, pos, All, arith, ◌+ℤ◌, ◌-ℤ◌, length, length-append, leb, if◌then◌else◌, Bool-cases,
}
use mathlib.Core.List.{append_assoc, append-nil}
use ttop_desk.Images.{
  abs, paeth, byte_at, byte_before, predicted, predicted_next, reconstruct, drop,
}

pub data Filter : Type 0 where
  unfiltered sub up average nearest : Filter

-- The byte that names the filter.
unfoldable pub code_of : Filter → ℕ
code_of unfiltered = 0
code_of sub = 1
code_of up = 2
code_of average = 3
code_of nearest = 4

abbrev pub gap : ℕ → ℕ → ℕ
gap x y = (x - y) + (y - x)

-- The standard's prediction from the bytes a (left), b (above) and c (upper left). The last filter
-- takes the one that is nearest to a + b - c, the first of them where two are as near.
unfoldable pub prediction : Filter → ℕ → ℕ → ℕ → ℕ
prediction unfiltered a b c = 0
prediction sub a b c = a
prediction up a b c = b
prediction average a b c = (a + b) / 2
prediction nearest a b c =
    if leb (gap b c) (gap a c) && leb (gap b c) (gap (a + b) (c + c))
    then a
    else if leb (gap a c) (gap (a + b) (c + c))
    then b
    else c

unfoldable pub blanks : ℕ → List ℕ
blanks zero = []
blanks (suc k) = 0 ∷ blanks k

unfoldable pub head : List ℕ → ℕ
head [] = 0
head (x ∷ xs) = x

unfoldable pub tail : List ℕ → List ℕ
tail [] = []
tail (x ∷ xs) = xs

-- Each byte less its prediction, modulo 256, beside the rows of its neighbours.
unfoldable pub less_prediction : Filter → List ℕ → List ℕ → List ℕ → List ℕ → List ℕ
less_prediction f [] left above upper_left = []
less_prediction f (x ∷ row) left above upper_left =
    (x + 256 - prediction f (head left) (head above) (head upper_left) % 256) % 256
    ∷ less_prediction f row (tail left) (tail above) (tail upper_left)

-- A row behind a row: its neighbours on the left are the same rows behind as many blanks as a pixel
-- has channels.
unfoldable pub filtered : Filter → ℕ → List ℕ → List ℕ → List ℕ
filtered f channels previous row =
    less_prediction f row (blanks channels ++ row) previous (blanks channels ++ previous)

byte_back : (x p : ℕ) → x < 256 → ((x + 256 - p % 256) % 256 + p) % 256 ≡ x
byte_back x p h = omega arith

distance_left : (a b c : ℕ) → abs (((pos a +ℤ pos b) -ℤ pos c) -ℤ pos a) ≡ gap b c
unfolding ◌+ℤ◌ ◌-ℤ◌
distance_left a b c = ground arith

distance_above : (a b c : ℕ) → abs (((pos a +ℤ pos b) -ℤ pos c) -ℤ pos b) ≡ gap a c
unfolding ◌+ℤ◌ ◌-ℤ◌
distance_above a b c = ground arith

distance_upper_left : (a b c : ℕ) → abs (((pos a +ℤ pos b) -ℤ pos c) -ℤ pos c) ≡ gap (a + b) (c + c)
unfolding ◌+ℤ◌ ◌-ℤ◌
distance_upper_left a b c = ground arith

paeth-nearest : (a b c : ℕ) → paeth a b c ≡ prediction nearest a b c
unfolding paeth prediction
paeth-nearest a b c = rw (distance_left a b c, distance_above a b c, distance_upper_left a b c) refl

predicted-prediction :
    (f : Filter) (a b c : ℕ) → predicted (code_of f) a b c ≡ some (prediction f a b c)
unfolding predicted code_of prediction
predicted-prediction unfiltered a b c = refl
predicted-prediction sub a b c = refl
predicted-prediction up a b c = refl
predicted-prediction average a b c = refl
predicted-prediction nearest a b c = ap some (unfold prediction in paeth-nearest a b c)

head-drop : (n : ℕ) (xs : List ℕ) → head (drop n xs) ≡ byte_at xs n
unfolding head byte_at
head-drop zero [] = refl
head-drop zero (x ∷ xs) = refl
head-drop (suc n) [] = refl
head-drop (suc n) (x ∷ xs) = head-drop n xs

tail-drop : (n : ℕ) (xs : List ℕ) → tail (drop n xs) ≡ drop (suc n) xs
unfolding tail
tail-drop zero [] = refl
tail-drop zero (x ∷ xs) = refl
tail-drop (suc n) [] = refl
tail-drop (suc n) (x ∷ xs) = tail-drop n xs

byte_at-blanks : (k n : ℕ) (xs : List ℕ) → byte_at (blanks k ++ xs) n ≡ byte_before xs k n
unfolding byte_at blanks
byte_at-blanks zero n xs = ground arith
byte_at-blanks (suc k) zero xs = ground arith
byte_at-blanks (suc k) (suc n) xs = byte_at-blanks k n xs ∙ same
  where
    same : byte_before xs k n ≡ byte_before xs (suc k) (suc n)
    same =
        let shifted : leb k n ≡ leb (suc k) (suc n) = ground arith in
        ap (λ t. if t then byte_at xs (n - k) else 0) shifted
        ∙ ap (λ i. if leb (suc k) (suc n) then byte_at xs i else 0) (omega arith)

byte_at-append : (xs ys : List ℕ) (n : ℕ) → n < length xs → byte_at (xs ++ ys) n ≡ byte_at xs n
unfolding byte_at
byte_at-append [] ys n h = absurd (omega arith)
byte_at-append (x ∷ xs) ys zero h = refl
byte_at-append (x ∷ xs) ys (suc n) h = byte_at-append xs ys n (omega arith)

byte_before-append :
    (k : ℕ) (xs ys : List ℕ)
    → 0 < k
    → byte_before (xs ++ ys) k (length xs) ≡ byte_before xs k (length xs)
byte_before-append k xs ys h = elim (Bool-cases (leb k (length xs))) [
  | inr e ↦ rw e refl
  | inl e ↦ rw e (byte_at-append xs ys (length xs - k) (ground arith))
]

-- What the standard predicts from the rows beside it is what the code predicts from the rows so far.
predicted_next-prediction :
    (f : Filter) (k : ℕ) (previous current row : List ℕ)
    → 0 < k
    → predicted_next (code_of f) k previous current
      ≡ some (
          prediction f
            (head (drop (length current) (blanks k ++ (current ++ row))))
            (head (drop (length current) previous))
            (head (drop (length current) (blanks k ++ previous))))
predicted_next-prediction f k previous current row h =
    let a =
      head-drop (length current) (blanks k ++ (current ++ row))
      ∙ (byte_at-blanks k (length current) (current ++ row) ∙ byte_before-append k current row h) in
    let b = head-drop (length current) previous in
    let c =
      head-drop (length current) (blanks k ++ previous)
      ∙ byte_at-blanks k (length current) previous in
    rw (a, b, c) (predicted-prediction f _ _ _)

reconstruct-less_prediction :
    (f : Filter) (k n : ℕ) (previous current row left above upper_left : List ℕ)
    → 0 < k
    → All (λ b. b < 256) row
    → length current ≡ n
    → left ≡ drop n (blanks k ++ (current ++ row))
    → above ≡ drop n previous
    → upper_left ≡ drop n (blanks k ++ previous)
    → reconstruct (code_of f) k previous current (less_prediction f row left above upper_left)
      ≡ some (current ++ row)
unfolding reconstruct less_prediction
reconstruct-less_prediction f k n previous current [] left above upper_left h small len l a u =
    ap some (sym (append-nil current))
reconstruct-less_prediction f k n previous current (x ∷ row) left above upper_left h (b, small) len
      l a u =
    let p = prediction f (head left) (head above) (head upper_left) in
    let here : predicted_next (code_of f) k previous current ≡ some p =
      predicted_next-prediction f k previous current (x ∷ row) h ∙ rw (len, l, a, u) refl in
    let whole : (current ++ x ∷ []) ++ row ≡ current ++ x ∷ row =
      append_assoc current (x ∷ []) row in
    let later =
      reconstruct-less_prediction f k (suc n) previous (current ++ x ∷ []) row (tail left)
        (tail above) (tail upper_left) h small (omega (arith, length-append current (x ∷ [])))
        (rw (l, whole) (tail-drop n (blanks k ++ (current ++ x ∷ row))))
        (rw a (tail-drop n previous)) (rw u (tail-drop n (blanks k ++ previous))) in
    rw (here, reconstruct, byte_back x p b) (later ∙ ap some whole)

-- Whatever row of bytes is filtered as the standard says, with any of the five filters, `read_png`
-- reconstructs the row from it.
pub reconstruct-filtered :
    (f : Filter) (channels : ℕ) (previous row : List ℕ)
    → 0 < channels
    → All (λ b. b < 256) row
    → reconstruct (code_of f) channels previous [] (filtered f channels previous row) ≡ some row
unfolding filtered
reconstruct-filtered f k previous row h small =
    reconstruct-less_prediction f k 0 previous [] row _ _ _ h small refl refl refl refl

length-less_prediction :
    (f : Filter) (row left above upper_left : List ℕ)
    → length (less_prediction f row left above upper_left) ≡ length row
unfolding less_prediction
length-less_prediction f [] left above upper_left = refl
length-less_prediction f (x ∷ row) left above upper_left =
    omega (arith, length-less_prediction f row (tail left) (tail above) (tail upper_left))

pub length-filtered :
    (f : Filter) (channels : ℕ) (previous row : List ℕ)
    → length (filtered f channels previous row) ≡ length row
unfolding filtered
length-filtered f channels previous row =
    length-less_prediction f row (blanks channels ++ row) previous (blanks channels ++ previous)

-- The Paeth predictor is one of its three neighbours, and none of them is nearer to left + above - upper left.
pub paeth_nearest :
    (left above upper_left : ℕ)
    → (abs (((pos left +ℤ pos above) -ℤ pos upper_left) -ℤ pos (paeth left above upper_left))
        ≤ abs (((pos left +ℤ pos above) -ℤ pos upper_left) -ℤ pos left))
      × (abs (((pos left +ℤ pos above) -ℤ pos upper_left) -ℤ pos (paeth left above upper_left))
          ≤ abs (((pos left +ℤ pos above) -ℤ pos upper_left) -ℤ pos above))
      × (abs (((pos left +ℤ pos above) -ℤ pos upper_left) -ℤ pos (paeth left above upper_left))
          ≤ abs (((pos left +ℤ pos above) -ℤ pos upper_left) -ℤ pos upper_left))
unfolding paeth
paeth_nearest left above upper_left = (ground arith, ground arith, ground arith)
