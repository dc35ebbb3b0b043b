-- ===== src/Images/Tests.antt =====
-- The theorems on images, at two small ones.
use ttop_desk.Python.Exceptions.{
  Result, ok, err, zlib_error, struct_error, RaisesOnly, RaisesOnly-ok,
}
use ttop_desk.Images.Chunks.{Chunks, decode_chunks, read_png, main, png_signature}
use ttop_desk.Images.Chunks.Files.{Checksum, png_file, read_png-written, all_data}
use ttop_desk.Images.Chunks.Status.{main_terminates}
use ttop_desk.Images.Chunks.Outcomes.{IsOutcome, main_outcomes, main_truncated, main_same_image}
use ttop_desk.Images.{Header}
use ttop_desk.Prelude.{
  ◌*◌, ◌+◌, Option, none, Bool, ltb, ℕ, ◌≤◌, ◌≡◌, ◌↔◌, refl, some, List, [], ◌∷◌, ◌++◌, ◌+ℤ◌, ◌-ℤ◌,
  arith,
}
use ttop_desk.Images.Rows.{encoded, read_rows-encoded}
use ttop_desk.Images.{read_rows, read_image}
use ttop_desk.Images.{abs, paeth, reconstruct, Pixel, compare}
use ttop_desk.Images.Filters.{Filter, sub, average, nearest, filtered}

abbrev one_row : List ℕ
one_row = 200 ∷ 7 ∷ 90 ∷ 255 ∷ []

abbrev coded_row : List ℕ
coded_row = 190 ∷ 243 ∷ 146 ∷ 235 ∷ []

-- Paeth, two channels, below a row of 10, 20, 30, 40.
row_filtered : filtered nearest 2 (10 ∷ 20 ∷ 30 ∷ 40 ∷ []) one_row ≡ coded_row
unfolding filtered ttop_desk.Images.Filters.less_prediction ttop_desk.Images.Filters.prediction
    ttop_desk.Images.Filters.blanks ttop_desk.Images.Filters.head ttop_desk.Images.Filters.tail
row_filtered = refl

abbrev dark : List Pixel
dark = record { red = 0; green = 0; blue = 9; alpha = 255 } ∷ []

abbrev light : List Pixel
light = record { red = 250; green = 1; blue = 9; alpha = 255 } ∷ []

-- Two gray rows of two pixels, with different filters.
abbrev two_rows : List (Filter × List ℕ)
two_rows = (sub, 5 ∷ 250 ∷ []) ∷ (average, 7 ∷ 4 ∷ []) ∷ []

abbrev two_coded : List ℕ
two_coded = 1 ∷ 5 ∷ 245 ∷ 3 ∷ 5 ∷ 132 ∷ []

rows_coded : encoded 1 (0 ∷ 0 ∷ []) two_rows ≡ two_coded
unfolding encoded filtered ttop_desk.Images.Filters.less_prediction
    ttop_desk.Images.Filters.prediction ttop_desk.Images.Filters.blanks
    ttop_desk.Images.Filters.head ttop_desk.Images.Filters.tail ttop_desk.Images.Filters.code_of
rows_coded = refl

gray_read :
    read_image
      (record {
        width = 2;
        height = 1;
        depth = 8;
        color_type = 0;
        compression = 0;
        filtering = 0;
        interlace = 0;
      })
      (0 ∷ 5 ∷ 250 ∷ [])
    ≡ some (
        record { red = 5; green = 5; blue = 5; alpha = 255 }
        ∷ record { red = 250; green = 250; blue = 250; alpha = 255 }
        ∷ [])
unfolding read_image ttop_desk.Images.channels_of read_rows reconstruct ttop_desk.Images.predicted
    ttop_desk.Images.expand ttop_desk.Images.expand_gray
gray_read = refl

read_rows-encoded_example :
    read_rows 1 2 2 (0 ∷ 0 ∷ []) (encoded 1 (0 ∷ 0 ∷ []) two_rows)
    ≡ some ((5 ∷ 250 ∷ []) ∷ (7 ∷ 4 ∷ []) ∷ [])
read_rows-encoded_example =
    read_rows-encoded 1 2 (0 ∷ 0 ∷ []) two_rows (omega arith)
      ((refl, omega arith), ((refl, omega arith), tt))

abbrev gray : Header
gray = record {
  width = 2;
  height = 1;
  depth = 8;
  color_type = 0;
  compression = 0;
  filtering = 0;
  interlace = 0;
}

-- A stand-in for zlib, whose data is not compressed.
abbrev stored : List ℕ → Result (List ℕ)
stored bytes = ok bytes

abbrev checksum : Checksum
checksum = record { a = 1; b = 2; c = 3; d = 4 }

abbrev gray_chunks : List (List ℕ × Checksum)
gray_chunks = (0 ∷ 5 ∷ [], checksum) ∷ (250 ∷ [], checksum) ∷ []

abbrev gray_file : List ℕ
gray_file = png_file gray checksum gray_chunks []

abbrev gray_pixels : List Pixel
gray_pixels =
    record { red = 5; green = 5; blue = 5; alpha = 255 }
    ∷ record { red = 250; green = 250; blue = 250; alpha = 255 }
    ∷ []

read_png-written_example :
    read_png stored gray_file
    ≡ some
        (decode_chunks stored (record { header = some gray; compressed = all_data [] gray_chunks }))
read_png-written_example =
    read_png-written stored gray checksum gray_chunks [] (omega arith) (omega arith)
      (omega arith, (omega arith, tt))

gray_file_read : read_png stored gray_file ≡ some (ok (gray, gray_pixels))
unfolding ttop_desk.Images.Chunks.read_png ttop_desk.Images.Chunks.read_chunks
    ttop_desk.Images.Chunks.Files.data_chunks ttop_desk.Images.Chunks.chunk_turn
    ttop_desk.Images.Chunks.unpack_length ttop_desk.Images.Chunks.unpack_header
    ttop_desk.Images.Chunks.decode_chunks ttop_desk.Images.read_image ttop_desk.Images.channels_of
    ttop_desk.Images.read_rows ttop_desk.Images.reconstruct ttop_desk.Images.predicted
    ttop_desk.Images.expand ttop_desk.Images.expand_gray ttop_desk.Prelude.text_eq
    ttop_desk.Prelude.starts_with
gray_file_read = refl

-- A tenth of the pixels may differ.
abbrev within : ℕ → ℕ → Bool
within different total = ltb (different * 10) (total + 1)

main_terminates_example : (r : Result ℕ) × (main within 2 stored (some gray_file) none ≡ some r)
main_terminates_example = main_terminates stored within 2 (some gray_file) none

stored_documented : (bytes : List ℕ) → RaisesOnly (λ e. e ≡ zlib_error) (stored bytes)
stored_documented bytes = RaisesOnly-ok (λ e. e ≡ zlib_error) bytes

main_outcomes_example :
    (r : Result ℕ) × (main within 2 stored (some gray_file) none ≡ some r) × IsOutcome within 2 r
main_outcomes_example = main_outcomes within 2 stored stored_documented (some gray_file) none

main_truncated_example :
    main within 2 stored (some (png_signature ++ 0 ∷ 0 ∷ [])) none ≡ some (err struct_error)
main_truncated_example =
    main_truncated within 2 stored (0 ∷ 0 ∷ []) none (omega arith) (omega arith)

main_same_image_example : main within 2 stored (some gray_file) (some gray_file) ≡ some (ok 0)
main_same_image_example =
    main_same_image within 2 stored gray_file gray gray_pixels gray_file_read refl
