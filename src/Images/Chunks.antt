-- ===== src/Images/Chunks.antt =====
-- tests/visual/compare_png.py: `read_png` from the bytes of a file, and the exit status of `main`.
-- `decompress` is `zlib.decompress`.
pub mod Files
pub mod Status
mod Raises
pub mod Outcomes
use ttop_desk.Prelude.{
  ℕ, zero, suc, ◌+◌, ◌*◌, ◌^◌, Bool, true, false, not, ◌&&◌, Option, none, some, List, [], ◌∷◌,
  ◌++◌, Text, text, text_eq, starts_with, length, take, ◌==◌, if◌then◌else◌,
}
use ttop_desk.Python.Exceptions.{
  Exception, value_error, os_error, struct_error, zlib_error, Result, ok, err, or_raise, raise_if,
  caught, ◌>>=◌, ◌>>◌,
}
use ttop_desk.Images.{Header, Pixel, Difference, channels_of, drop, read_image, compare}

abbrev pub png_signature : List ℕ
png_signature = 137 ∷ 80 ∷ 78 ∷ 71 ∷ 13 ∷ 10 ∷ 26 ∷ 10 ∷ []

-- `struct.unpack(">I", bytes)[0]`
unfoldable pub unpack_length : List ℕ → Result ℕ
unpack_length (a ∷ b ∷ c ∷ d ∷ []) = ok (((a * 256 + b) * 256 + c) * 256 + d)
unpack_length _ = err struct_error

-- `struct.unpack(">IIBBBBB", bytes)`
unfoldable pub unpack_header : List ℕ → Result Header
unpack_header (a ∷ b ∷ c ∷ d ∷ e ∷ f ∷ g ∷ h ∷ depth ∷ color ∷ method ∷ filter ∷ interlace ∷ []) =
    do
      width ← unpack_length (a ∷ b ∷ c ∷ d ∷ [])
      height ← unpack_length (e ∷ f ∷ g ∷ h ∷ [])
      ok (record {
        width = width;
        height = height;
        depth = depth;
        color_type = color;
        compression = method;
        filtering = filter;
        interlace = interlace;
      })
unpack_header _ = err struct_error

-- `header` and `compressed`
pub record Chunks : Type 0 where
  pub header : Option Header
  pub compressed : List ℕ

-- One turn of the loop: it breaks, or goes on that many bytes later.
pub data Turn : Type 0 where
  broken : Chunks → Turn
  advanced : ℕ → Chunks → Turn

-- The body of the loop, at the bytes from `position` on.
unfoldable pub chunk_turn : List ℕ → Chunks → Result Turn
chunk_turn payload chunks = do
  size ← unpack_length (take 4 payload)
  let chunk_type = take 4 (drop 4 payload)
  let chunk_data = take size (drop 8 payload)
  if text_eq chunk_type (text "IHDR")
      then (unpack_header chunk_data >>= λ header.
          ok (advanced (12 + size) (record chunks { header = some header })))
      else if text_eq chunk_type (text "IDAT")
      then ok
          (advanced (12 + size) (record chunks { compressed = chunks.compressed ++ chunk_data }))
      else if text_eq chunk_type (text "IEND")
      then ok (broken chunks)
      else ok (advanced (12 + size) chunks)

-- `while position < len(payload)`; `none` is that the fuel is used up.
unfoldable pub read_chunks : ℕ → List ℕ → Chunks → Option (Result Chunks)
read_chunks fuel [] chunks = some (ok chunks)
read_chunks zero (b ∷ payload) chunks = none
read_chunks (suc fuel) (b ∷ payload) chunks = elim (chunk_turn (b ∷ payload) chunks) [
  | err e ↦ some (err e)
  | ok turn ↦ elim turn [
    | broken ended ↦ some (ok ended)
    | advanced size further ↦ read_chunks fuel (drop size (b ∷ payload)) further
  ]
]

abbrev pub is_supported : Header → Bool
is_supported h = h.depth == 8 && h.compression == 0 && h.filtering == 0 && h.interlace == 0

module _ (decompress : List ℕ → Result (List ℕ)) where
  -- What follows the loop: the checks of the header come before the data is decompressed.
  unfoldable pub decode_chunks : Chunks → Result (Header × List Pixel)
  decode_chunks chunks = do
    header ← or_raise value_error chunks.header
    raise_if (not (is_supported header)) value_error
    _ ← or_raise value_error (channels_of header.color_type)
    decoded ← decompress chunks.compressed
    pixels ← or_raise value_error (read_image header decoded)
    ok (header, pixels)

  -- `read_png`, which needs as much fuel as there are bytes
  unfoldable pub read_png : List ℕ → Option (Result (Header × List Pixel))
  read_png payload =
      if not (starts_with png_signature payload)
      then some (err value_error)
      else elim (read_chunks (length payload) (drop 8 payload)
          (record { header = none; compressed = [] })) [
            | none ↦ none
            | some r ↦ some (r >>= decode_chunks)
          ]

  -- A file that cannot be read is `none`.
  unfoldable pub read_file : Option (List ℕ) → Option (Result (Header × List Pixel))
  read_file none = some (err os_error)
  read_file (some payload) = read_png payload

-- `except (OSError, ValueError, zlib.error)`
unfoldable pub is_handled : Exception → Bool
is_handled os_error = true
is_handled value_error = true
is_handled zlib_error = true
is_handled _ = false

abbrev pub Images : Type 0
Images = (Header × List Pixel) × (Header × List Pixel)

-- The body of the `try`.
unfoldable pub both_read :
    Result (Header × List Pixel) → Result (Header × List Pixel) → Result Images
both_read first second = first >>= λ p. second >>= λ q. ok (p, q)

-- `within` is the comparison of the ratio of two numbers with `--max-different-ratio`.
module _ (within : ℕ → ℕ → Bool) (tolerance : ℕ) where
  -- The comparison of two images that were read.
  unfoldable pub status_of : Header × List Pixel → Header × List Pixel → ℕ
  status_of (h, baseline) (k, candidate) =
      if not (h.width == k.width && h.height == k.height)
      then 1
      else if within (compare tolerance baseline candidate).different (h.width * h.height)
      then 0
      else 1

  -- After the `try`, where `none` is that an exception was handled.
  unfoldable pub after_reading : Option Images → Result ℕ
  after_reading none = ok 2
  after_reading (some images) = ok (status_of images.0 images.1)

  unfoldable pub exit_status :
      Result (Header × List Pixel) → Result (Header × List Pixel) → Result ℕ
  exit_status first second = caught is_handled (both_read first second) >>= after_reading

  unfoldable pub main :
      (List ℕ → Result (List ℕ)) → Option (List ℕ) → Option (List ℕ) → Option (Result ℕ)
  main decompress baseline candidate = elim (read_file decompress baseline) [
    | none ↦ none
    | some first ↦ elim (read_file decompress candidate) [
      | none ↦ none
      | some second ↦ some (exit_status first second)
    ]
  ]
