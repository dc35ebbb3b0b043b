-- ===== src/Images/Rows.antt =====
-- The rows of an image: what an encoder of the PNG standard writes row by row is read back.
use mathlib.Core.Path.{subst}
use ttop_desk.Prelude.{
  ℕ, ◌<◌, ◌≡◌, refl, ◌∙◌, ap, some, List, [], ◌∷◌, ◌++◌, All, arith, length, take,
}
use ttop_desk.Images.{read_rows, drop}
use ttop_desk.Images.Filters.{Filter, code_of, filtered, reconstruct-filtered, length-filtered}

-- The rows of an image, each behind the filter that the encoder chose for it.
unfoldable pub encoded : ℕ → List ℕ → List (Filter × List ℕ) → List ℕ
encoded channels previous [] = []
encoded channels previous ((f, row) ∷ rows) =
    code_of f ∷ (filtered f channels previous row ++ encoded channels row rows)

abbrev pub bytes_of : List (Filter × List ℕ) → List (List ℕ)
bytes_of [] = []
bytes_of ((f, row) ∷ rows) = row ∷ bytes_of rows

pub take-append : (xs ys : List ℕ) → take (length xs) (xs ++ ys) ≡ xs
take-append [] ys = refl
take-append (x ∷ xs) ys = ap (◌∷◌ x) (take-append xs ys)

drop-append : (xs ys : List ℕ) → drop (length xs) (xs ++ ys) ≡ ys
drop-append [] ys = refl
drop-append (x ∷ xs) ys = drop-append xs ys

-- What an encoder that follows the PNG standard writes of rows of bytes of one size, with a filter
-- for each row and at least one channel, is read back as those rows.
pub read_rows-encoded :
    (channels row_size : ℕ) (previous : List ℕ) (rows : List (Filter × List ℕ))
    → 0 < channels
    → All (λ r. (length r.1 ≡ row_size) × All (λ b. b < 256) r.1) rows
    → read_rows channels row_size (length rows) previous (encoded channels previous rows)
      ≡ some (bytes_of rows)
unfolding encoded read_rows
read_rows-encoded k n previous [] positive h = refl
read_rows-encoded k n previous ((f, row) ∷ rows) positive ((size, small), h) =
    let coded = filtered f k previous row in
    let whole : length coded ≡ n = length-filtered f k previous row ∙ size in
    let head : take n (coded ++ encoded k row rows) ≡ coded =
      subst (λ j. take j (coded ++ encoded k row rows) ≡ coded) whole (take-append coded _) in
    let tail : drop n (coded ++ encoded k row rows) ≡ encoded k row rows =
      subst (λ j. drop j (coded ++ encoded k row rows) ≡ encoded k row rows) whole
        (drop-append coded _) in
    ground (
      arith,
      head,
      tail,
      reconstruct-filtered f k previous row positive small,
      read_rows-encoded k n row rows positive h,
    )
