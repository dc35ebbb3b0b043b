-- ===== src/Release/Validation/Checksums.antt =====
-- What `validate_checksums` accepts.
use ttop_desk.Prelude.{
  ℕ, ◌≡◌, ◌↔◌, refl, ap, ◌∙◌, Bool, true, false, not, some, List, [], ◌∷◌, Text, text, text_eq,
  text_eq_iff, text_eq_self, text_lt, text_lt_asym, text_le_trans, arith,
}
use ttop_desk.Python.Exceptions.{
  ok, assertion_error, raise_if-passed, or_raise, or_raise-eq_ok, map_result, >>=-eq-ok, AllPairs,
  map_result→AllPairs, AllPairs→map_result,
}
use ttop_desk.Python.Sort.{sorted, IsSorted}
use ttop_desk.Python.Sort.Laws.{sorted-IsSorted, sorted_of_IsSorted}
use ttop_desk.Release.Paths.{PurePath}
use ttop_desk.Release.Archives.Entries.{Files, safe_name}
use ttop_desk.Release.Validation.{
  file_at, read_text, splitlines, match_checksum, same_texts, no_lines, checksum_name,
  validate_checksums, assert,
}

same_texts_iff : (a b : List Text) → (same_texts a b ≡ true) ↔ (a ≡ b)
unfolding same_texts
same_texts_iff [] [] = (λ h. refl, λ h. refl)
same_texts_iff [] (y ∷ ys) = (λ h. cc, λ h. cc)
same_texts_iff (x ∷ xs) [] = (λ h. cc, λ h. cc)
same_texts_iff (x ∷ xs) (y ∷ ys) = ground (arith, text_eq_iff x y, same_texts_iff xs ys)

assert-ok : (b : Bool) → assert b ≡ ok tt → b ≡ true
assert-ok true h = refl
assert-ok false h = cc

module _ (sha256 : List ℕ → Text) where
  -- A line of a digest and the name of a file below the directory that has it.
  pub record IsChecked (dist : Files) (line name : Text) : Type 0 where
    pub digest : Text
    pub path : PurePath
    pub payload : List ℕ
    pub is_line : match_checksum line ≡ some (digest, name)
    pub is_safe : safe_name name ≡ ok path
    pub is_file : file_at dist name ≡ some payload
    pub has_digest : sha256 payload ≡ digest

  checksum_name→IsChecked :
      (dist : Files) (line name : Text)
      → checksum_name sha256 dist line ≡ ok name
      → IsChecked dist line name
  unfolding checksum_name
  checksum_name→IsChecked dist line name h =
      let (groups, matched, h₁) = >>=-eq-ok (or_raise assertion_error (match_checksum line)) _ h in
      let (path, safe, h₂) = >>=-eq-ok (safe_name groups.1) _ h₁ in
      let (payload, found, h₃) =
        >>=-eq-ok (or_raise assertion_error (file_at dist groups.1)) _ h₂ in
      let (same, last) =
        raise_if-passed (not (text_eq (sha256 payload) groups.0)) assertion_error _ h₃ in
      let named : groups.1 ≡ name = ground arith in
      let digest_is : sha256 payload ≡ groups.0 =
        ground (arith, text_eq_iff (sha256 payload) groups.0) in
      record {
        digest = groups.0;
        path = path;
        payload = payload;
        is_line =
            or_raise-eq_ok assertion_error (match_checksum line) matched
            ∙ ap (λ n. some (groups.0, n)) named;
        is_safe = rw (← named) safe;
        is_file = rw (← named) (or_raise-eq_ok assertion_error (file_at dist groups.1) found);
        has_digest = digest_is;
      }

  IsChecked→checksum_name :
      (dist : Files) (line name : Text)
      → IsChecked dist line name
      → checksum_name sha256 dist line ≡ ok name
  unfolding checksum_name
  IsChecked→checksum_name dist line name h =
      rw (h.is_line, h.is_safe, h.is_file, h.has_digest, text_eq_self h.digest) refl

  -- The lines of SHA256SUMS with the names that they check.
  pub record AreSums (dist : Files) : Type 0 where
    pub content : Text
    pub names : List Text
    pub is_content : read_text dist (text "SHA256SUMS") ≡ ok content
    pub has_lines : no_lines (splitlines content) ≡ false
    pub are_checked : AllPairs (IsChecked dist) (splitlines content) names
    pub are_sorted : IsSorted text_lt names

  AllPairs-map :
      {A B : Type 0} (R S : A → B → Type 0)
      → ((x : A) (y : B) → R x y → S x y)
      → (xs : List A) (ys : List B) → AllPairs R xs ys
      → AllPairs S xs ys
  AllPairs-map R S f [] [] h = tt
  AllPairs-map R S f [] (y ∷ ys) h = elim h [ ]
  AllPairs-map R S f (x ∷ xs) [] h = elim h [ ]
  AllPairs-map R S f (x ∷ xs) (y ∷ ys) h = (f x y h.0, AllPairs-map R S f xs ys h.1)

  -- `validate_checksums` accepts a directory exactly when SHA256SUMS has at least one line, its
  -- names are sorted, and each line is a digest and a safe name of a file in the directory that
  -- has this digest.
  pub validate_checksums_iff :
      (dist : Files) → (validate_checksums sha256 dist ≡ ok tt) ↔ AreSums dist
  unfolding validate_checksums
  validate_checksums_iff dist = (
    λ h.
        let (content, read, h₁) = >>=-eq-ok (read_text dist (text "SHA256SUMS")) _ h in
        let (some_lines, h₂) =
          raise_if-passed (not (not (no_lines (splitlines content)))) assertion_error _ h₁ in
        let (names, checked, h₃) =
          >>=-eq-ok (map_result (checksum_name sha256 dist) (splitlines content)) _ h₂ in
        let same : names ≡ sorted text_lt names =
          (same_texts_iff names (sorted text_lt names)).0 (assert-ok _ h₃) in
        record {
          content = content;
          names = names;
          is_content = read;
          has_lines = ground arith;
          are_checked =
              AllPairs-map _ _ (checksum_name→IsChecked dist) _ _
                (map_result→AllPairs _ _ _ checked);
          are_sorted = rw same (sorted-IsSorted text_lt text_lt_asym text_le_trans names);
        },
    λ s.
        rw
          (
            s.is_content,
            s.has_lines,
            AllPairs→map_result _ _ _
                (AllPairs-map _ _ (IsChecked→checksum_name dist) _ _ s.are_checked),
            sorted_of_IsSorted text_lt s.names s.are_sorted,
            (same_texts_iff s.names s.names).1 refl,
          )
          refl,
  )
