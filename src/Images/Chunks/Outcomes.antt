-- ===== src/Images/Chunks/Outcomes.antt =====
-- The exit status of `main` and what it lets through.
use mathlib.Core.Path.{subst}
use ttop_desk.Prelude.{
  ℕ, ◌*◌, ◌<◌, ◌≤◌, ◌≡◌, refl, ap, ◌∙◌, Bool, true, ◌&&◌, Option, none, some, List, [], ◌∷◌, ◌++◌,
  length, arith, starts_with, Bool-cases, inl, inr, OnSome, ◌==◌,
}
use ttop_desk.Python.Exceptions.{
  struct_error, zlib_error, Result, ok, err, Result-cases, is_ok, is_err, caught, RaisesOnly,
  RaisesOnly-bind, RaisesOnly-ok,
}
use ttop_desk.Images.{Header, Pixel}
use ttop_desk.Images.Differences.{compare_self}
use ttop_desk.Images.Chunks.{
  png_signature, unpack_length, chunk_turn, read_chunks, read_png, is_handled, read_file, status_of,
  exit_status, after_reading, both_read, main,
}
use ttop_desk.Images.Chunks.Raises.{IsExpected, read_file-Raises, caught-Raises}
use ttop_desk.Images.Chunks.Status.{read_file_terminates}

truncated :
    (decompress : List ℕ → Result (List ℕ)) (rest : List ℕ)
    → 0 < length rest
    → length rest < 4
    → read_file decompress (some (png_signature ++ rest)) ≡ some (err struct_error)
unfolding read_file read_png read_chunks chunk_turn unpack_length starts_with
truncated decompress [] h k = absurd (omega arith)
truncated decompress (a ∷ []) h k = refl
truncated decompress (a ∷ b ∷ []) h k = refl
truncated decompress (a ∷ b ∷ c ∷ []) h k = refl
truncated decompress (a ∷ b ∷ c ∷ d ∷ rest) h k = absurd (omega arith)

-- 0, 1 or 2.
module _ (within : ℕ → ℕ → Bool) (tolerance : ℕ) where
  status_of-small : (p q : Header × List Pixel) → status_of within tolerance p q ≤ 1
  unfolding status_of
  status_of-small (h, baseline) (k, candidate) =
      elim (Bool-cases (h.width == k.width && h.height == k.height)) [
        | inr e ↦ ground arith
        | inl e ↦ ground arith
      ]

  -- An exit status, or the one exception.
  abbrev pub IsOutcome : Result ℕ → Type 0
  IsOutcome (ok status) = status ≤ 2
  IsOutcome (err e) = e ≡ struct_error

  exit_status-IsOutcome :
      (first second : Result (Header × List Pixel))
      → RaisesOnly IsExpected first
      → RaisesOnly IsExpected second
      → IsOutcome (exit_status within tolerance first second)
  unfolding exit_status both_read after_reading
  exit_status-IsOutcome first second h k =
      elim (Result-cases (caught is_handled (both_read first second))) [
        | is_err e q ↦ rw q (caught-Raises (both_read first second) both_read-Raises e q)
        | is_ok none q ↦ rw (q, after_reading) (omega arith)
        | is_ok (some images) q ↦
            let few : status_of within tolerance images.0 images.1 ≤ 1 =
              status_of-small images.0 images.1 in
            rw (q, after_reading) (omega arith)
      ]
    where
      both_read-Raises : RaisesOnly IsExpected (both_read first second)
      both_read-Raises =
          RaisesOnly-bind IsExpected first _ h
            λ p. RaisesOnly-bind IsExpected second _ k λ q. RaisesOnly-ok IsExpected (p, q)

  main_of_read :
      (decompress : List ℕ → Result (List ℕ)) (baseline candidate : Option (List ℕ))
      (first second : Result (Header × List Pixel))
      → read_file decompress baseline ≡ some first
      → read_file decompress candidate ≡ some second
      → main within tolerance decompress baseline candidate
        ≡ some (exit_status within tolerance first second)
  unfolding main
  main_of_read decompress baseline candidate first second p q = rw (p, q, main) refl

  status_of_same :
      (h : Header) (pixels : List Pixel)
      → within 0 (h.width * h.height) ≡ true
      → status_of within tolerance (h, pixels) (h, pixels) ≡ 0
  unfolding status_of
  status_of_same h pixels k = rw (compare_self tolerance pixels) (ground arith)

  -- Where zlib raises nothing but its error, `main` ends for every two files, readable or not: it
  -- returns an exit status of at most 2, or raises struct.error, and no other exception.
  pub main_outcomes :
      (decompress : List ℕ → Result (List ℕ))
      → ((bytes : List ℕ) → RaisesOnly (λ e. e ≡ zlib_error) (decompress bytes))
      → (baseline candidate : Option (List ℕ))
      → (r : Result ℕ) × (main within tolerance decompress baseline candidate ≡ some r)
        × IsOutcome r
  main_outcomes decompress documented baseline candidate =
      let (first, p) = read_file_terminates decompress baseline in
      let (second, q) = read_file_terminates decompress candidate in
      let h = read_file-Raises decompress documented baseline in
      let k = read_file-Raises decompress documented candidate in
      (
        exit_status within tolerance first second,
        main_of_read decompress baseline candidate first second p q,
        exit_status-IsOutcome first second (subst (OnSome (RaisesOnly IsExpected)) p h)
            (subst (OnSome (RaisesOnly IsExpected)) q k),
      )

  -- A baseline file that ends within the length of its first chunk makes `main` raise
  -- struct.error, whatever the candidate is.
  pub main_truncated :
      (decompress : List ℕ → Result (List ℕ)) (rest : List ℕ) (candidate : Option (List ℕ))
      → 0 < length rest
      → length rest < 4
      → main within tolerance decompress (some (png_signature ++ rest)) candidate
        ≡ some (err struct_error)
  unfolding exit_status both_read caught is_handled
  main_truncated decompress rest candidate few short =
      let (second, q) = read_file_terminates decompress candidate in
      main_of_read decompress (some (png_signature ++ rest)) candidate (err struct_error) second
        (truncated decompress rest few short) q

  -- The same image.
  pub main_same_image :
      (decompress : List ℕ → Result (List ℕ)) (payload : List ℕ) (header : Header)
      (pixels : List Pixel)
      → read_png decompress payload ≡ some (ok (header, pixels))
      → within 0 (header.width * header.height) ≡ true
      → main within tolerance decompress (some payload) (some payload) ≡ some (ok 0)
  unfolding exit_status both_read caught after_reading read_file
  main_same_image decompress payload header pixels h k =
      main_of_read decompress (some payload) (some payload) _ _ h h
      ∙ ap (λ n. some (ok n)) (status_of_same header pixels k)
