-- ===== src/Images/Chunks/Status.antt =====
-- The loop over the chunks ends, and what `main` does with every file.
use mathlib.Core.Path.{subst}
use ttop_desk.Prelude.{
  ℕ, zero, suc, ◌+◌, ◌<◌, ◌≤◌, ◌≡◌, refl, Bool, true, false, Option, none, some, List, [], ◌∷◌,
  length, take, arith, starts_with, Bool-cases, inl, inr, if◌then◌else◌,
}
use ttop_desk.Python.Exceptions.{
  value_error, os_error, Result, ok, err, Result-cases, is_ok, is_err, ◌>>=◌,
}
use ttop_desk.Images.{Header, Pixel, drop}
use ttop_desk.Images.Chunks.{
  png_signature, unpack_length, Chunks, Turn, broken, advanced, chunk_turn, read_chunks,
  decode_chunks, read_png, read_file, exit_status, main,
}

length-drop : (n : ℕ) (s : List ℕ) → length (drop n s) ≤ length s
length-drop zero s = omega arith
length-drop (suc n) [] = omega arith
length-drop (suc n) (b ∷ s) = omega (arith, length-drop n s)

length-drop_pos : (n b : ℕ) (s : List ℕ) → 0 < n → length (drop n (b ∷ s)) ≤ length s
length-drop_pos zero b s h = absurd (omega arith)
length-drop_pos (suc n) b s h = length-drop n s

-- A turn that goes on goes on by at least twelve bytes.
abbrev Advances : Result Turn → Type 0
Advances (ok (advanced size further)) = 12 ≤ size
Advances _ = Unit

branches-Advance :
    (is_header is_data is_end : Bool) (r : Result Header) (size : ℕ) (chunks more : Chunks)
    → Advances (
        if is_header
        then (r >>= λ header. ok (advanced (12 + size) (record chunks { header = some header })))
        else if is_data
        then ok (advanced (12 + size) more)
        else if is_end
        then ok (broken chunks)
        else ok (advanced (12 + size) chunks))
branches-Advance true d e (ok h) size chunks more = omega arith
branches-Advance true d e (err x) size chunks more = tt
branches-Advance false true e r size chunks more = omega arith
branches-Advance false false true r size chunks more = tt
branches-Advance false false false r size chunks more = omega arith

chunk_turn-Advances : (payload : List ℕ) (chunks : Chunks) → Advances (chunk_turn payload chunks)
unfolding chunk_turn
chunk_turn-Advances payload chunks = elim (Result-cases (unpack_length (take 4 payload))) [
  | is_err e q ↦ rw (q, chunk_turn) tt
  | is_ok size q ↦ rw (q, chunk_turn) (branches-Advance _ _ _ _ size chunks _)
]

-- With as much fuel as there are bytes the loop ends by itself.
pub read_chunks_terminates :
    (fuel : ℕ) (payload : List ℕ) (chunks : Chunks)
    → length payload ≤ fuel
    → (r : Result Chunks) × (read_chunks fuel payload chunks ≡ some r)
unfolding read_chunks
read_chunks_terminates fuel [] chunks h = (ok chunks, refl)
read_chunks_terminates zero (b ∷ payload) chunks h = absurd (omega arith)
read_chunks_terminates (suc fuel) (b ∷ payload) chunks h =
    elim (Result-cases (chunk_turn (b ∷ payload) chunks)) [
      | is_err e q ↦ (err e, rw (q, read_chunks) refl)
      | is_ok (broken ended) q ↦ (ok ended, rw (q, read_chunks) refl)
      | is_ok (advanced size further) q ↦
          let large : 12 ≤ size = subst Advances q (chunk_turn-Advances (b ∷ payload) chunks) in
          let fewer : length (drop size (b ∷ payload)) ≤ fuel =
            omega (arith, length-drop_pos size b payload) in
          let (r, e) = read_chunks_terminates fuel (drop size (b ∷ payload)) further fewer in
          (r, rw (q, read_chunks) e)
    ]

module _ (decompress : List ℕ → Result (List ℕ)) where
  pub read_png_terminates :
      (payload : List ℕ)
      → (r : Result (Header × List Pixel)) × (read_png decompress payload ≡ some r)
  unfolding read_png
  read_png_terminates payload = elim (Bool-cases (starts_with png_signature payload)) [
    | inr e ↦ (err value_error, rw e refl)
    | inl e ↦
        let (r, q) =
          read_chunks_terminates (length payload) (drop 8 payload)
            (record { header = none; compressed = [] }) (length-drop 8 payload) in
        ((r >>= decode_chunks decompress), rw (e, q) refl)
  ]

  pub read_file_terminates :
      (file : Option (List ℕ))
      → (r : Result (Header × List Pixel)) × (read_file decompress file ≡ some r)
  unfolding read_file
  read_file_terminates none = (err os_error, refl)
  read_file_terminates (some payload) = read_png_terminates payload

  -- Main.
  pub main_terminates :
      (within : ℕ → ℕ → Bool) (tolerance : ℕ) (baseline candidate : Option (List ℕ))
      → (r : Result ℕ) × (main within tolerance decompress baseline candidate ≡ some r)
  unfolding main
  main_terminates within tolerance baseline candidate =
      let (first, p) = read_file_terminates baseline in
      let (second, q) = read_file_terminates candidate in
      (exit_status within tolerance first second, rw (p, q, main) refl)
