-- ===== src/Release/Validation/Dist/Tarballs.antt =====
-- What the checks of the two tar archives let pass.
use ttop_desk.Prelude.{
  ℕ, ◌≡◌, All-map, true, false, not, ◌++◌, some, List, [], ◌∷◌, Text, text, text_eq_iff,
  starts_with, All, arith,
}
use ttop_desk.Python.Exceptions.{
  Result, ok, os_error, value_error, other_error, assertion_error, or_raise, or_raise-eq_ok,
  raise_if-passed, map_result, >>=-eq-ok, AllPairs, map_result→AllPairs,
}
use ttop_desk.Python.Dict.{lookup, text_key}
use ttop_desk.Python.Strings.{decode_utf8}
use ttop_desk.Release.Archives.{TarMember}
use ttop_desk.Release.Archives.Entries.{Files, any_text, tar_entries}
use ttop_desk.Release.Validation.{file_at, splitlines, match_checksum}
use ttop_desk.Release.Validation.Dist.{
  backend_name, bundle_name, names_of, is_subset, same_set, assert_all_portable, backend_root,
  required_backend, bundle_root, required_bundle, validate_backend, assert_bundled_line,
  validate_bundle,
}
use ttop_desk.Release.Validation.Dist.Laws.{
  Within, is_subset→Within, same_set→Within, IsPortable, assert_all_portable-ok, any_text-none,
}

module _ (open_tar : List ℕ → Result (List TarMember)) where
  -- The backend's archive, in its directory.
  pub record IsBackend (dist : Files) (version : Text) (needles : List (List ℕ)) : Type 0 where
    pub bytes : List ℕ
    pub archive : List TarMember
    pub entries : Files
    pub is_file : file_at dist (backend_name version) ≡ some bytes
    pub is_archive : open_tar bytes ≡ ok archive
    pub are_entries : tar_entries archive ≡ ok entries
    pub is_complete : Within (required_backend version) (names_of entries)
    pub in_root : All (λ name. starts_with (backend_root version) name ≡ true) (names_of entries)
    pub is_portable : All (λ f. IsPortable needles f.1) entries

  pub validate_backend-ok :
      (dist : Files) (version : Text) (needles : List (List ℕ))
      → validate_backend open_tar dist version needles ≡ ok tt
      → IsBackend dist version needles
  unfolding validate_backend
  validate_backend-ok dist version needles h =
      let (bytes, found, h₁) =
        >>=-eq-ok (or_raise os_error (file_at dist (backend_name version))) _ h in
      let (archive, opened, h₂) = >>=-eq-ok (open_tar bytes) _ h₁ in
      let (entries, read, h₃) = >>=-eq-ok (tar_entries archive) _ h₂ in
      let (complete, h₄) =
        raise_if-passed (not (is_subset (required_backend version) (names_of entries)))
          assertion_error _ h₃ in
      let outside =
        any_text (λ name. not (starts_with (backend_root version) name)) (names_of entries) in
      let (rooted, portable) = raise_if-passed (not (not outside)) assertion_error _ h₄ in
      let none_outside : outside ≡ false = ground arith in
      record {
        bytes = bytes;
        archive = archive;
        entries = entries;
        is_file = or_raise-eq_ok os_error _ found;
        is_archive = opened;
        are_entries = read;
        is_complete = is_subset→Within _ _ complete;
        in_root =
            All-map _ _ (names_of entries) (λ name apart. ground arith)
              (any_text-none _ _ none_outside);
        is_portable = assert_all_portable-ok entries needles portable;
      }

  module _ (sha256 : List ℕ → Text) where
    -- A line of the bundle's sums, and the member that it is about.
    pub record IsBundled (bundle : Files) (version line : Text) : Type 0 where
      pub digest : Text
      pub name : Text
      pub payload : List ℕ
      pub is_line : match_checksum line ≡ some (digest, name)
      pub is_member : lookup (bundle_root version ++ name) bundle ≡ some payload
      pub has_digest : sha256 payload ≡ digest

    assert_bundled_line-ok :
        (bundle : Files) (version line : Text)
        → assert_bundled_line open_tar sha256 bundle version line ≡ ok tt
        → IsBundled bundle version line
    unfolding assert_bundled_line
    assert_bundled_line-ok bundle version line h =
        let (groups, matched, h₁) =
          >>=-eq-ok (or_raise assertion_error (match_checksum line)) _ h in
        let (payload, found, h₂) =
          >>=-eq-ok (or_raise assertion_error (lookup (bundle_root version ++ groups.1) bundle)) _
            h₁ in
        record {
          digest = groups.0;
          name = groups.1;
          payload = payload;
          is_line = or_raise-eq_ok assertion_error _ matched;
          is_member = or_raise-eq_ok assertion_error _ found;
          has_digest = ground (arith, text_eq_iff (sha256 payload) groups.0);
        }

    -- The bundle of the version, with exactly the files that it should have.
    pub record IsBundle (dist : Files) (version : Text) (needles : List (List ℕ)) : Type 0 where
      pub bytes : List ℕ
      pub archive : List TarMember
      pub entries : Files
      pub sums : List ℕ
      pub decoded : Text
      pub is_file : file_at dist (bundle_name version) ≡ some bytes
      pub is_archive : open_tar bytes ≡ ok archive
      pub are_entries : tar_entries archive ≡ ok entries
      pub is_complete : Within (required_bundle version) (names_of entries)
      pub has_no_other : Within (names_of entries) (required_bundle version)
      pub is_portable : All (λ f. IsPortable needles f.1) entries
      pub has_sums : lookup (bundle_root version ++ text "SHA256SUMS") entries ≡ some sums
      pub is_utf8 : decode_utf8 sums ≡ some decoded
      pub are_bundled : All (IsBundled entries version) (splitlines decoded)

    all-IsBundled :
        (bundle : Files) (version : Text) (lines : List Text) (units : List (Unit {0}))
        → AllPairs
            (λ line u. assert_bundled_line open_tar sha256 bundle version line ≡ ok u)
            lines
            units
        → All (IsBundled bundle version) lines
    all-IsBundled bundle version [] [] h = tt
    all-IsBundled bundle version [] (_ ∷ _) h = elim h [ ]
    all-IsBundled bundle version (line ∷ lines) [] h = elim h [ ]
    all-IsBundled bundle version (line ∷ lines) (tt ∷ units) h = (
      assert_bundled_line-ok bundle version line h.0,
      all-IsBundled bundle version lines units h.1,
    )

    pub validate_bundle-ok :
        (dist : Files) (version : Text) (needles : List (List ℕ))
        → validate_bundle open_tar sha256 dist version needles ≡ ok tt
        → IsBundle dist version needles
    unfolding validate_bundle
    validate_bundle-ok dist version needles h =
        let (bytes, found, h₁) =
          >>=-eq-ok (or_raise os_error (file_at dist (bundle_name version))) _ h in
        let (archive, opened, h₂) = >>=-eq-ok (open_tar bytes) _ h₁ in
        let (entries, read, h₃) = >>=-eq-ok (tar_entries archive) _ h₂ in
        let (same, h₄) =
          raise_if-passed (not (same_set (required_bundle version) (names_of entries)))
            assertion_error _ h₃ in
        let (u, portable, h₅) = >>=-eq-ok (assert_all_portable entries needles) _ h₄ in
        let (sums, there, h₆) =
          >>=-eq-ok
            (or_raise other_error (lookup (bundle_root version ++ text "SHA256SUMS") entries)) _
            h₅ in
        let (decoded, utf8, h₇) = >>=-eq-ok (or_raise value_error (decode_utf8 sums)) _ h₆ in
        let (units, bundled, _) =
          >>=-eq-ok
            (map_result (assert_bundled_line open_tar sha256 entries version) (splitlines decoded))
            _ h₇ in
        record {
          bytes = bytes;
          archive = archive;
          entries = entries;
          sums = sums;
          decoded = decoded;
          is_file = or_raise-eq_ok os_error _ found;
          is_archive = opened;
          are_entries = read;
          is_complete = (same_set→Within _ _ same).0;
          has_no_other = (same_set→Within _ _ same).1;
          is_portable = assert_all_portable-ok entries needles portable;
          has_sums = or_raise-eq_ok other_error _ there;
          is_utf8 = or_raise-eq_ok value_error _ utf8;
          are_bundled =
              all-IsBundled entries version (splitlines decoded) units
                (map_result→AllPairs _ _ _ bundled);
        }
