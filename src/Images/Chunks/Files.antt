-- ===== src/Images/Chunks/Files.antt =====
-- A file that is written chunk by chunk is read as what its chunks hold.
use ttop_desk.Prelude.{
  ℕ, zero, suc, ◌+◌, ◌/◌, ◌%◌, ◌<◌, ◌≡◌, refl, sym, ap, ◌∙◌, Option, none, some, List, [], ◌∷◌,
  ◌++◌, length, arith, All, text, text_eq, starts_with,
}
use ttop_desk.Python.Exceptions.{Result, ok, Result-cases, is_ok, is_err}
use ttop_desk.Images.{Header, drop}
use ttop_desk.Images.Rows.{take-append}
use ttop_desk.Images.Chunks.{
  png_signature, unpack_length, unpack_header, Chunks, broken, advanced, chunk_turn, read_chunks,
  decode_chunks, read_png,
}
use ttop_desk.Images.Chunks.Status.{read_chunks_terminates}

-- Four bytes of a number, the most significant first.
abbrev pub four_bytes : ℕ → List ℕ
four_bytes n = n / 16777216 % 256 ∷ n / 65536 % 256 ∷ n / 256 % 256 ∷ n % 256 ∷ []

unpack_length-four_bytes : (n : ℕ) → n < 4294967296 → unpack_length (four_bytes n) ≡ ok n
unfolding unpack_length
unpack_length-four_bytes n h = ap ok (omega arith)

-- A chunk with some checksum, in front of more bytes.
pub record Checksum : Type 0 where
  pub a : ℕ
  pub b : ℕ
  pub c : ℕ
  pub d : ℕ

abbrev pub after_type : List ℕ → Checksum → List ℕ → List ℕ
after_type bytes s rest = bytes ++ s.a ∷ s.b ∷ s.c ∷ s.d ∷ rest

abbrev pub header_chunk : List ℕ → Checksum → List ℕ → List ℕ
header_chunk bytes s rest = four_bytes (length bytes) ++ (text "IHDR" ++ after_type bytes s rest)

abbrev pub data_chunk : List ℕ → Checksum → List ℕ → List ℕ
data_chunk bytes s rest = four_bytes (length bytes) ++ (text "IDAT" ++ after_type bytes s rest)

drop-after_type :
    (bytes rest : List ℕ) (s : Checksum) (m : ℕ)
    → m ≡ length bytes + 4
    → drop m (after_type bytes s rest) ≡ rest
drop-after_type [] rest s m h = rw h refl
drop-after_type (x ∷ bytes) rest s zero h = absurd (omega arith)
drop-after_type (x ∷ bytes) rest s (suc m) h = drop-after_type bytes rest s m (omega arith)

-- Past the length, the type, the bytes and the checksum.
drop-chunk :
    (a b c d e f g h : ℕ) (bytes rest : List ℕ) (s : Checksum)
    → drop (12 + length bytes) (a ∷ b ∷ c ∷ d ∷ e ∷ f ∷ g ∷ h ∷ after_type bytes s rest) ≡ rest
drop-chunk a b c d e f g h bytes rest s =
    let more : 12 + length bytes
        ≡ suc (suc (suc (suc (suc (suc (suc (suc (length bytes + 4)))))))) =
      omega arith in
    rw more (drop-after_type bytes rest s (length bytes + 4) refl)

drop-data_chunk :
    (bytes rest : List ℕ) (s : Checksum) → drop (12 + length bytes) (data_chunk bytes s rest) ≡ rest
drop-data_chunk bytes rest s =
    drop-chunk (length bytes / 16777216 % 256) (length bytes / 65536 % 256)
      (length bytes / 256 % 256) (length bytes % 256) b'I' b'D' b'A' b'T' bytes rest s

data_chunk-turn :
    (bytes rest : List ℕ) (s : Checksum) (chunks : Chunks)
    → length bytes < 4294967296
    → chunk_turn (data_chunk bytes s rest) chunks
      ≡ ok
          (advanced (12 + length bytes) (record chunks { compressed = chunks.compressed ++ bytes }))
unfolding chunk_turn text_eq
data_chunk-turn bytes rest s chunks h =
    rw (unpack_length-four_bytes (length bytes) h, take-append bytes (s.a ∷ s.b ∷ s.c ∷ s.d ∷ rest))
      refl

abbrev pub header_bytes : Header → List ℕ
header_bytes h =
    four_bytes h.width
    ++ (four_bytes h.height
        ++ h.depth ∷ h.color_type ∷ h.compression ∷ h.filtering ∷ h.interlace ∷ [])

unpack_header-bytes :
    (h : Header)
    → h.width < 4294967296
    → h.height < 4294967296
    → unpack_header (header_bytes h) ≡ ok h
unfolding unpack_header
unpack_header-bytes h w k =
    rw (unpack_length-four_bytes h.width w, unpack_length-four_bytes h.height k) refl

header_chunk-turn :
    (h : Header) (rest : List ℕ) (s : Checksum) (chunks : Chunks)
    → h.width < 4294967296
    → h.height < 4294967296
    → chunk_turn (header_chunk (header_bytes h) s rest) chunks
      ≡ ok (advanced 25 (record chunks { header = some h }))
unfolding chunk_turn text_eq unpack_length
header_chunk-turn h rest s chunks w k = rw (unpack_header-bytes h w k) refl

-- The data in its chunks, each with its checksum.
unfoldable pub data_chunks : List (List ℕ × Checksum) → List ℕ → List ℕ
data_chunks [] rest = rest
data_chunks ((bytes, s) ∷ more) rest = data_chunk bytes s (data_chunks more rest)

unfoldable pub all_data : List ℕ → List (List ℕ × Checksum) → List ℕ
all_data front [] = front
all_data front ((bytes, s) ∷ more) = all_data (front ++ bytes) more

-- The last chunk, with whatever follows it.
abbrev pub end_chunk : List ℕ → List ℕ
end_chunk rest = four_bytes 0 ++ (text "IEND" ++ rest)

read_advanced :
    (fuel b size : ℕ) (payload : List ℕ) (chunks further : Chunks)
    → chunk_turn (b ∷ payload) chunks ≡ ok (advanced size further)
    → read_chunks (suc fuel) (b ∷ payload) chunks
      ≡ read_chunks fuel (drop size (b ∷ payload)) further
unfolding read_chunks
read_advanced fuel b size payload chunks further h = rw (h, read_chunks) refl

read_data :
    (chunks : List (List ℕ × Checksum)) (rest front : List ℕ) (header : Option Header)
    → All (λ c. length c.0 < 4294967296) chunks
    → read_chunks
        (suc (length chunks))
        (data_chunks chunks (end_chunk rest))
        (record { header = header; compressed = front })
      ≡ some (ok (record { header = header; compressed = all_data front chunks }))
unfolding read_chunks data_chunks all_data chunk_turn text_eq unpack_length
read_data [] rest front header h = refl
read_data ((bytes, s) ∷ chunks) rest front header (small, h) =
    let later = data_chunks chunks (end_chunk rest) in
    read_advanced (suc (length chunks)) (length bytes / 16777216 % 256) (12 + length bytes) _
      (record { header = header; compressed = front })
      (record { header = header; compressed = front ++ bytes })
      (data_chunk-turn bytes later s (record { header = header; compressed = front }) small)
    ∙ ap
        (λ p.
          read_chunks (suc (length chunks)) p
            (record { header = header; compressed = front ++ bytes }))
        (drop-data_chunk bytes later s)
    ∙ read_data chunks rest (front ++ bytes) header h

-- More fuel gives the same result.
more_fuel :
    (fuel more total : ℕ) (payload : List ℕ) (chunks : Chunks) (r : Result Chunks)
    → fuel + more ≡ total
    → read_chunks fuel payload chunks ≡ some r
    → read_chunks total payload chunks ≡ some r
unfolding read_chunks
more_fuel fuel more total [] chunks r t h = h
more_fuel zero more total (b ∷ payload) chunks r t h = cc
more_fuel (suc fuel) more zero (b ∷ payload) chunks r t h = absurd (omega arith)
more_fuel (suc fuel) more (suc total) (b ∷ payload) chunks r t h =
    elim (Result-cases (chunk_turn (b ∷ payload) chunks)) [
      | is_err e q ↦ rw (q, read_chunks) (ground arith)
      | is_ok (broken ended) q ↦ rw (q, read_chunks) (ground arith)
      | is_ok (advanced size further) q ↦
          read_advanced total b size payload chunks further q
          ∙ more_fuel fuel more total (drop size (b ∷ payload)) further r (omega arith)
              (sym (read_advanced fuel b size payload chunks further q) ∙ h)
    ]

-- Two runs that end have one result.
same_result :
    (f g : ℕ) (payload : List ℕ) (chunks : Chunks) (r q : Result Chunks)
    → read_chunks f payload chunks ≡ some r
    → read_chunks g payload chunks ≡ some q
    → q ≡ r
same_result f g payload chunks r q h k =
    let left = more_fuel f g (f + g) payload chunks r refl h in
    let right = more_fuel g f (f + g) payload chunks q (omega arith) k in ground arith

-- The file.
abbrev pub png_file : Header → Checksum → List (List ℕ × Checksum) → List ℕ → List ℕ
png_file header s chunks rest =
    png_signature ++ header_chunk (header_bytes header) s (data_chunks chunks (end_chunk rest))

-- A file that has a header chunk, any data chunks and an end chunk, with any checksums and
-- whatever follows, is read as its header and its data put together.
pub read_png-written :
    (decompress : List ℕ → Result (List ℕ)) (header : Header) (s : Checksum)
    (chunks : List (List ℕ × Checksum)) (rest : List ℕ)
    → header.width < 4294967296
    → header.height < 4294967296
    → All (λ c. length c.0 < 4294967296) chunks
    → read_png decompress (png_file header s chunks rest)
      ≡ some (
          decode_chunks decompress
            (record { header = some header; compressed = all_data [] chunks }))
unfolding read_png starts_with
read_png-written decompress header s chunks rest w h small =
    let after = data_chunks chunks (end_chunk rest) in
    let payload = header_chunk (header_bytes header) s after in
    let start : Chunks = record { header = none; compressed = [] } in
    let ended : Chunks = record { header = some header; compressed = all_data [] chunks } in
    let (r, e) =
      read_chunks_terminates (length (png_signature ++ payload)) payload start (omega arith) in
    let short : read_chunks (suc (suc (length chunks))) payload start ≡ some (ok ended) =
      read_advanced (suc (length chunks)) 0 25 _ start
        (record { header = some header; compressed = [] })
        (header_chunk-turn header after s start w h)
      ∙ read_data chunks rest [] (some header) small in
    let same : r ≡ ok ended = same_result _ _ payload start (ok ended) r short e in
    rw (e ∙ ap some same) refl
