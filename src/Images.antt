-- ===== src/Images.antt =====
-- tests/visual/compare_png.py: the filters of PNG rows, and the comparison of pixels.
pub mod Filters
pub mod Rows
pub mod Differences
pub mod Chunks
mod Tests
use ttop_desk.Prelude.{
  ℕ, zero, suc, ◌+◌, ◌-◌, ◌/◌, ◌%◌, Bool, true, false, ◌&&◌, Option, none, some, List, [], ◌∷◌,
  ◌++◌, ℤ, pos, negsuc, ◌+ℤ◌, ◌-ℤ◌, length, take, not, ◌*◌, leb, ltb, ◌==◌, if◌then◌else◌,
}

-- `abs(x)`
abbrev pub abs : ℤ → ℕ
abs (pos k) = k
abs (negsuc k) = suc k

unfoldable pub paeth : ℕ → ℕ → ℕ → ℕ
paeth left above upper_left =
    let prediction = (pos left +ℤ pos above) -ℤ pos upper_left in
    let left_distance = abs (prediction -ℤ pos left) in
    let above_distance = abs (prediction -ℤ pos above) in
    let upper_left_distance = abs (prediction -ℤ pos upper_left) in
    if leb left_distance above_distance && leb left_distance upper_left_distance
    then left
    else if leb above_distance upper_left_distance
    then above
    else upper_left

-- `row[index]`, which is in range wherever the code reads it
unfoldable pub byte_at : List ℕ → ℕ → ℕ
byte_at [] index = 0
byte_at (b ∷ bs) zero = b
byte_at (b ∷ bs) (suc index) = byte_at bs index

-- `row[index - channels] if index >= channels else 0`
abbrev pub byte_before : List ℕ → ℕ → ℕ → ℕ
byte_before row channels index = if leb channels index then byte_at row (index - channels) else 0

-- what is added to a raw byte; `none` is the ValueError of an unknown filter
unfoldable pub predicted : ℕ → ℕ → ℕ → ℕ → Option ℕ
predicted filter_type left above upper_left =
    if filter_type == 0
    then some 0
    else if filter_type == 1
    then some left
    else if filter_type == 2
    then some above
    else if filter_type == 3
    then some ((left + above) / 2)
    else if filter_type == 4
    then some (paeth left above upper_left)
    else none

-- the prediction at the end of the part `current` of a row
abbrev pub predicted_next : ℕ → ℕ → List ℕ → List ℕ → Option ℕ
predicted_next filter_type channels previous current =
    predicted filter_type (byte_before current channels (length current))
      (byte_at previous (length current)) (byte_before previous channels (length current))

-- the loop over one row of `read_png`, with the bytes so far
unfoldable pub reconstruct : ℕ → ℕ → List ℕ → List ℕ → List ℕ → Option (List ℕ)
reconstruct filter_type channels previous current [] = some current
reconstruct filter_type channels previous current (raw_value ∷ source) =
    elim (predicted_next filter_type channels previous current) [
      | none ↦ none
      | some p ↦
          reconstruct filter_type channels previous (current ++ (raw_value + p) % 256 ∷ []) source
    ]

abbrev pub distance : ℕ → ℕ → ℕ
distance a b = abs (pos a -ℤ pos b)

abbrev pub larger : ℕ → ℕ → ℕ
larger a b = if ltb a b then b else a

-- How many pixels differ, and the greatest difference of a channel.
pub record Difference : Type 0 where
  pub different : ℕ
  pub maximum_delta : ℕ

-- four bytes of the decoded image
pub record Pixel : Type 0 where
  pub red : ℕ
  pub green : ℕ
  pub blue : ℕ
  pub alpha : ℕ

abbrev pub delta_between : Pixel → Pixel → ℕ
delta_between p q =
    larger
      (larger (larger (distance p.red q.red) (distance p.green q.green)) (distance p.blue q.blue))
      (distance p.alpha q.alpha)

-- the loop over the pixels of `main`, for two images of one size
unfoldable pub compare : ℕ → List Pixel → List Pixel → Difference
compare tolerance [] candidate = record { different = 0; maximum_delta = 0 }
compare tolerance (p ∷ baseline) [] = record { different = 0; maximum_delta = 0 }
compare tolerance (p ∷ baseline) (q ∷ candidate) =
    let rest = compare tolerance baseline candidate in
    record {
      different = (if ltb tolerance (delta_between p q) then 1 else 0) + rest.different;
      maximum_delta = larger (delta_between p q) rest.maximum_delta;
    }

-- `channels_by_type`; `none` is the ValueError of an unsupported color type
unfoldable pub channels_of : ℕ → Option ℕ
channels_of color_type =
    if color_type == 0
    then some 1
    else if color_type == 2
    then some 3
    else if color_type == 4
    then some 2
    else if color_type == 6
    then some 4
    else none

abbrev pub drop : ℕ → List ℕ → List ℕ
drop zero bs = bs
drop (suc k) [] = []
drop (suc k) (b ∷ bs) = drop k bs

-- the loop over the rows of `read_png`; `none` is a ValueError or, past the end, an IndexError
unfoldable pub read_rows : ℕ → ℕ → ℕ → List ℕ → List ℕ → Option (List (List ℕ))
read_rows channels row_size zero previous decoded = some []
read_rows channels row_size (suc height) previous [] = none
read_rows channels row_size (suc height) previous (filter_type ∷ decoded) =
    elim (reconstruct filter_type channels previous [] (take row_size decoded)) [
      | none ↦ none
      | some row ↦ elim (read_rows channels row_size height row (drop row_size decoded)) [
        | none ↦ none
        | some rows ↦ some (row ∷ rows)
      ]
    ]

-- the loop over the pixels of one row of `read_png`, which is a row of whole pixels
unfoldable pub expand_gray : List ℕ → List Pixel
expand_gray [] = []
expand_gray (v ∷ row) = record { red = v; green = v; blue = v; alpha = 255 } ∷ expand_gray row

unfoldable pub expand_rgb : List ℕ → List Pixel
expand_rgb (r ∷ g ∷ b ∷ row) = record { red = r; green = g; blue = b; alpha = 255 } ∷ expand_rgb row
expand_rgb _ = []

unfoldable pub expand_gray_alpha : List ℕ → List Pixel
expand_gray_alpha (v ∷ a ∷ row) =
    record { red = v; green = v; blue = v; alpha = a } ∷ expand_gray_alpha row
expand_gray_alpha _ = []

unfoldable pub expand_rgba : List ℕ → List Pixel
expand_rgba (r ∷ g ∷ b ∷ a ∷ row) =
    record { red = r; green = g; blue = b; alpha = a } ∷ expand_rgba row
expand_rgba _ = []

unfoldable pub expand : ℕ → List ℕ → List Pixel
expand color_type row =
    if color_type == 0
    then expand_gray row
    else if color_type == 2
    then expand_rgb row
    else if color_type == 4
    then expand_gray_alpha row
    else expand_rgba row

-- `bytearray(row_size)`
abbrev pub zeros : ℕ → List ℕ
zeros zero = []
zeros (suc k) = 0 ∷ zeros k

-- the fields of the header chunk
pub record Header : Type 0 where
  pub width : ℕ
  pub height : ℕ
  pub depth : ℕ
  pub color_type : ℕ
  pub compression : ℕ
  pub filtering : ℕ
  pub interlace : ℕ

abbrev pub expand_all : ℕ → List (List ℕ) → List Pixel
expand_all color_type [] = []
expand_all color_type (row ∷ rows) = expand color_type row ++ expand_all color_type rows

-- `read_png` from its header checks on, given what `zlib.decompress` returns
unfoldable pub read_image : Header → List ℕ → Option (List Pixel)
read_image h decoded =
    if not (h.depth == 8 && h.compression == 0 && h.filtering == 0 && h.interlace == 0)
    then none
    else elim (channels_of h.color_type) [
      | none ↦ none
      | some channels ↦
          if not (length decoded == h.height * (h.width * channels + 1))
          then none
          else elim (read_rows channels (h.width * channels) h.height (zeros (h.width * channels))
              decoded) [ none ↦ none | some rows ↦ some (expand_all h.color_type rows) ]
    ]
