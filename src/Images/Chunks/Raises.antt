-- ===== src/Images/Chunks/Raises.antt =====
-- What `read_png` and its caller can raise: an exception that `main` handles, or a struct.error.
use ttop_desk.Prelude.{
  ℕ, zero, suc, ◌+◌, ◌≡◌, ◌⊎◌, refl, ap, Bool, true, false, not, Option, none, some, List, [], ◌∷◌,
  length, take, starts_with, Bool-cases, inl, inr, if◌then◌else◌, OnSome,
}
use ttop_desk.Python.Exceptions.{
  Exception, value_error, os_error, struct_error, zlib_error, Result, ok, err, Result-cases, is_ok,
  is_err, or_raise, caught, ◌>>=◌, RaisesOnly, RaisesOnly-bind, RaisesOnly-ok, RaisesOnly-err,
  RaisesOnly-raise_if, raise_if,
}
use ttop_desk.Images.{Header, channels_of, drop, read_image}
use ttop_desk.Images.Chunks.{
  png_signature, unpack_length, unpack_header, Chunks, broken, advanced, chunk_turn, read_chunks,
  is_supported, decode_chunks, read_png, is_handled, read_file,
}

abbrev pub IsStruct : Exception → Type 0
IsStruct e = e ≡ struct_error

-- An exception that `main` handles, or a struct.error.
abbrev pub IsExpected : Exception → Type 0
IsExpected e = (is_handled e ≡ true) ⊎ (e ≡ struct_error)

unpack_length-Raises : (bytes : List ℕ) → RaisesOnly IsExpected (unpack_length bytes)
unfolding unpack_length
unpack_length-Raises (a ∷ b ∷ c ∷ d ∷ []) = RaisesOnly-ok IsExpected _
unpack_length-Raises [] = RaisesOnly-err IsExpected struct_error (inr refl)
unpack_length-Raises (a ∷ []) = RaisesOnly-err IsExpected struct_error (inr refl)
unpack_length-Raises (a ∷ b ∷ []) = RaisesOnly-err IsExpected struct_error (inr refl)
unpack_length-Raises (a ∷ b ∷ c ∷ []) = RaisesOnly-err IsExpected struct_error (inr refl)
unpack_length-Raises (a ∷ b ∷ c ∷ d ∷ e ∷ s) = RaisesOnly-err IsExpected struct_error (inr refl)

unpack_header-Raises : (bytes : List ℕ) → RaisesOnly IsExpected (unpack_header bytes)
unfolding unpack_header unpack_length
unpack_header-Raises (a ∷ b ∷ c ∷ d ∷ e ∷ f ∷ g ∷ h ∷ i ∷ j ∷ k ∷ l ∷ m ∷ []) =
    RaisesOnly-ok IsExpected _
unpack_header-Raises _ = RaisesOnly-err IsExpected struct_error (inr refl)

branches-Raise :
    (is_header is_data is_end : Bool) (r : Result Header) (size : ℕ) (chunks more : Chunks)
    → RaisesOnly IsExpected r
    → RaisesOnly IsExpected (
        if is_header
        then (r >>= λ header. ok (advanced (12 + size) (record chunks { header = some header })))
        else if is_data
        then ok (advanced (12 + size) more)
        else if is_end
        then ok (broken chunks)
        else ok (advanced (12 + size) chunks))
branches-Raise true d e r size chunks more h =
    RaisesOnly-bind IsExpected r _ h (λ header. RaisesOnly-ok IsExpected _)
branches-Raise false true e r size chunks more h = RaisesOnly-ok IsExpected _
branches-Raise false false true r size chunks more h = RaisesOnly-ok IsExpected _
branches-Raise false false false r size chunks more h = RaisesOnly-ok IsExpected _

chunk_turn-Raises :
    (payload : List ℕ) (chunks : Chunks) → RaisesOnly IsExpected (chunk_turn payload chunks)
unfolding chunk_turn
chunk_turn-Raises payload chunks =
    RaisesOnly-bind IsExpected (unpack_length (take 4 payload)) _
      (unpack_length-Raises (take 4 payload))
      λ size.
        branches-Raise _ _ _ _ size chunks _ (unpack_header-Raises (take size (drop 8 payload)))

read_chunks-Raises :
    (fuel : ℕ) (payload : List ℕ) (chunks : Chunks)
    → OnSome (RaisesOnly IsExpected) (read_chunks fuel payload chunks)
unfolding read_chunks
read_chunks-Raises fuel [] chunks = RaisesOnly-ok IsExpected _
read_chunks-Raises zero (b ∷ payload) chunks = tt
read_chunks-Raises (suc fuel) (b ∷ payload) chunks =
    elim (Result-cases (chunk_turn (b ∷ payload) chunks)) [
      | is_err e q ↦
          rw (q, read_chunks)
            (RaisesOnly-err IsExpected e (chunk_turn-Raises (b ∷ payload) chunks e q))
      | is_ok (broken ended) q ↦ rw (q, read_chunks) (RaisesOnly-ok IsExpected ended)
      | is_ok (advanced size further) q ↦
          rw (q, read_chunks) (read_chunks-Raises fuel (drop size (b ∷ payload)) further)
    ]

or_raise-Raises {ℓ} :
    {A : Type ℓ} (e : Exception) (o : Option A)
    → IsExpected e
    → RaisesOnly IsExpected (or_raise e o)
or_raise-Raises e none h = RaisesOnly-err IsExpected e h
or_raise-Raises e (some a) h = RaisesOnly-ok IsExpected a

module _ (decompress : List ℕ → Result (List ℕ))
    (documented : (bytes : List ℕ) → RaisesOnly (λ e. e ≡ zlib_error) (decompress bytes)) where
  decode_chunks-Raises : (chunks : Chunks) → RaisesOnly IsExpected (decode_chunks decompress chunks)
  unfolding decode_chunks is_handled
  decode_chunks-Raises chunks =
      RaisesOnly-bind IsExpected (or_raise value_error chunks.header) _
        (or_raise-Raises value_error chunks.header (inl refl))
        λ header.
          RaisesOnly-bind IsExpected (raise_if (not (is_supported header)) value_error) _
            (RaisesOnly-raise_if IsExpected (not (is_supported header)) value_error (inl refl))
            λ _.
              RaisesOnly-bind IsExpected (or_raise value_error (channels_of header.color_type)) _
                (or_raise-Raises value_error (channels_of header.color_type) (inl refl))
                λ _.
                  RaisesOnly-bind IsExpected (decompress chunks.compressed) _
                    (λ e p. inl (ap is_handled (documented chunks.compressed e p)))
                    λ decoded.
                      RaisesOnly-bind IsExpected (or_raise value_error (read_image header decoded))
                        _ (or_raise-Raises value_error (read_image header decoded) (inl refl))
                        λ pixels. RaisesOnly-ok IsExpected (header, pixels)

  read_png-Raises :
      (payload : List ℕ) → OnSome (RaisesOnly IsExpected) (read_png decompress payload)
  unfolding read_png is_handled
  read_png-Raises payload = elim (Bool-cases (starts_with png_signature payload)) [
    | inr e ↦ rw e (RaisesOnly-err IsExpected value_error (inl refl))
    | inl e ↦ rw e (
        after (read_chunks (length payload) (drop 8 payload) start)
          (read_chunks-Raises (length payload) (drop 8 payload) start))
  ]
    where
      start : Chunks
      start = record { header = none; compressed = [] }

      after :
          (o : Option (Result Chunks))
          → OnSome (RaisesOnly IsExpected) o
          → OnSome
              (RaisesOnly IsExpected)
              (elim o [ none ↦ none | some r ↦ some (r >>= decode_chunks decompress) ])
      after none h = tt
      after (some r) h = RaisesOnly-bind IsExpected r _ h decode_chunks-Raises

  pub read_file-Raises :
      (file : Option (List ℕ)) → OnSome (RaisesOnly IsExpected) (read_file decompress file)
  unfolding read_file is_handled
  read_file-Raises none = RaisesOnly-err IsExpected os_error (inl refl)
  read_file-Raises (some payload) = read_png-Raises payload

pub caught-Raises {ℓ} :
    {A : Type ℓ} (r : Result A)
    → RaisesOnly IsExpected r
    → RaisesOnly IsStruct (caught is_handled r)
unfolding caught is_handled
caught-Raises (ok a) h = RaisesOnly-ok IsStruct (some a)
caught-Raises (err x) h = elim (h x refl) [
  | inl e ↦ rw e (RaisesOnly-ok IsStruct none)
  | inr e ↦ rw e (RaisesOnly-err IsStruct struct_error refl)
]
