-- ===== src/Release/Validation/Dist.antt =====
-- scripts/validate-release.py: `validate_dist` over the files of a directory. `open_zip` and
-- `open_tar` are what `zipfile` and `tarfile` find in the bytes of an archive.
pub mod Laws
pub mod Tarballs
pub mod Accepted
use ttop_desk.Prelude.{
  ℕ, Bool, true, false, not, ◌&&◌, ◌||◌, List, [], ◌∷◌, ◌++◌, map, Text, text, text_eq, member_text,
  starts_with, Option, none, some,
}
use ttop_desk.Python.Exceptions.{
  Result, ok, err, os_error, value_error, type_error, other_error, assertion_error, or_raise,
  raise_if, map_result, ◌>>=◌, ◌>>◌,
}
use ttop_desk.Python.Dict.{lookup, text_key}
use ttop_desk.Python.Runtime.{Runtime}
use ttop_desk.Python.Strings.{decode_utf8}
use ttop_desk.Json.{Json, str, obj, to_dict}
use ttop_desk.Json.Decode.{loads}
use ttop_desk.Release.Archives.{ZipMember, TarMember}
use ttop_desk.Release.Archives.Entries.{
  Files, any_text, zip_entries, tar_entries, assert_portable_bytes,
}
use ttop_desk.Release.Validation.{assert, file_at, splitlines, match_checksum, validate_checksums}

abbrev pub catalog : Text
catalog = text "plasma_applet_io.github.s3cb34r.ttopdesk.mo"

abbrev pub plasmoid_name : Text → Text
plasmoid_name version = text "ttop-desk-" ++ version ++ text ".plasmoid"

abbrev pub backend_name : Text → Text
backend_name version = text "ttop-desk-backend-" ++ version ++ text ".tar.gz"

abbrev pub bundle_name : Text → Text
bundle_name version = text "ttop-desk-" ++ version ++ text "-linux.tar.gz"

abbrev pub expected_files : Text → List Text
expected_files version =
    text "CHANGELOG.md"
    ∷ text "LICENSE"
    ∷ text "README.md"
    ∷ text "RELEASE-NOTES.md"
    ∷ text "SHA256SUMS"
    ∷ text "VERSION"
    ∷ text "install.sh"
    ∷ text "uninstall.sh"
    ∷ (text "locale/de/LC_MESSAGES/" ++ catalog)
    ∷ plasmoid_name version
    ∷ backend_name version
    ∷ bundle_name version
    ∷ []

-- `d.keys()`
abbrev pub names_of : Files → List Text
names_of files = map (λ f. f.0) files

-- `xs <= ys` and `xs == ys` of sets
unfoldable pub is_subset : List Text → List Text → Bool
is_subset xs ys = not (any_text (λ x. not (member_text x ys)) xs)

unfoldable pub same_set : List Text → List Text → Bool
same_set xs ys = is_subset xs ys && is_subset ys xs

-- The loop over the payloads of an archive.
unfoldable pub assert_all_portable : Files → List (List ℕ) → Result (Unit {0})
assert_all_portable [] extra_needles = ok tt
assert_all_portable ((name, payload) ∷ files) extra_needles =
    assert_portable_bytes payload extra_needles >> assert_all_portable files extra_needles

abbrev pub required_plasmoid : List Text
required_plasmoid =
    text "metadata.json"
    ∷ text "contents/ui/main.qml"
    ∷ text "contents/config/main.xml"
    ∷ text "contents/ui/TTop/Runtime/qmldir"
    ∷ text "contents/ui/TTop/Runtime/libttopruntimeplugin.so"
    ∷ []

abbrev pub backend_root : Text → Text
backend_root version = text "ttop-desk-backend-" ++ version ++ text "/"

abbrev pub required_backend : Text → List Text
required_backend version =
    map (λ name. backend_root version ++ name)
      (text "LICENSE"
        ∷ text "README.md"
        ∷ text "VERSION"
        ∷ text "ttop-desk-backend.service.in"
        ∷ text "ttop_backend/__init__.py"
        ∷ text "ttop_backend/main.py"
        ∷ text "ttop_backend/protocol.py"
        ∷ text "ttop_backend/processes.py"
        ∷ text "ttop_backend/gpu/nvidia.py"
        ∷ [])

abbrev pub bundle_root : Text → Text
bundle_root version = text "ttop-desk-" ++ version ++ text "-linux/"

abbrev pub required_bundle : Text → List Text
required_bundle version =
    map (λ name. bundle_root version ++ name)
      (text "install.sh"
        ∷ text "uninstall.sh"
        ∷ text "README.md"
        ∷ text "RELEASE-NOTES.md"
        ∷ text "CHANGELOG.md"
        ∷ text "LICENSE"
        ∷ text "VERSION"
        ∷ text "SHA256SUMS"
        ∷ plasmoid_name version
        ∷ backend_name version
        ∷ (text "locale/de/LC_MESSAGES/" ++ catalog)
        ∷ [])

module _ {F : Type 0} where
  -- `value[key]` for a text
  unfoldable pub subscript : Json F → Text → Result (Json F)
  subscript (obj fields) key = or_raise other_error (lookup key (to_dict fields))
  subscript _ key = err type_error

  -- `value == t` for a text
  unfoldable pub equals_text : Json F → Text → Bool
  equals_text (str s) t = text_eq s t
  equals_text _ t = false

module _ (F : Type 0) ⦃n : Runtime F⦄ (open_zip : List ℕ → Result (List ZipMember)) where
  -- The checks of the plasmoid.
  unfoldable pub validate_plasmoid : Files → Text → List (List ℕ) → Result (Unit {0})
  validate_plasmoid dist version extra_needles = do
    bytes ← or_raise os_error (file_at dist (plasmoid_name version))
    archive ← open_zip bytes
    plasmoid ← zip_entries archive
    assert (is_subset required_plasmoid (names_of plasmoid))
    metadata ← or_raise other_error (lookup (text "metadata.json") plasmoid)
    decoded ← or_raise value_error (decode_utf8 metadata)
    packaged_metadata ← loads {F = F} decoded
    plugin ← subscript packaged_metadata (text "KPlugin")
    packaged_version ← subscript plugin (text "Version")
    assert (equals_text packaged_version version)
    assert (not (any_text (starts_with (text "package/")) (names_of plasmoid)))
    assert_all_portable plasmoid extra_needles

module _ (open_tar : List ℕ → Result (List TarMember)) where
  -- The checks of the backend's archive.
  unfoldable pub validate_backend : Files → Text → List (List ℕ) → Result (Unit {0})
  validate_backend dist version extra_needles = do
    bytes ← or_raise os_error (file_at dist (backend_name version))
    archive ← open_tar bytes
    backend ← tar_entries archive
    assert (is_subset (required_backend version) (names_of backend))
    assert
        (not (any_text (λ name. not (starts_with (backend_root version) name)) (names_of backend)))
    assert_all_portable backend extra_needles

  module _ (sha256 : List ℕ → Text) where
    -- The body of the loop over the lines of the bundle's SHA256SUMS.
    unfoldable pub assert_bundled_line : Files → Text → Text → Result (Unit {0})
    assert_bundled_line bundle version line = do
      groups ← or_raise assertion_error (match_checksum line)
      payload ← or_raise assertion_error (lookup (bundle_root version ++ groups.1) bundle)
      assert (text_eq (sha256 payload) groups.0)

    -- The checks of the bundle.
    unfoldable pub validate_bundle : Files → Text → List (List ℕ) → Result (Unit {0})
    validate_bundle dist version extra_needles = do
      bytes ← or_raise os_error (file_at dist (bundle_name version))
      archive ← open_tar bytes
      bundle ← tar_entries archive
      assert (same_set (required_bundle version) (names_of bundle))
      assert_all_portable bundle extra_needles
      sums ← or_raise other_error (lookup (bundle_root version ++ text "SHA256SUMS") bundle)
      checksum_payload ← or_raise value_error (decode_utf8 sums)
      _ ← map_result (assert_bundled_line bundle version) (splitlines checksum_payload)
      ok tt

module _ (F : Type 0) ⦃n : Runtime F⦄ (open_zip : List ℕ → Result (List ZipMember))
    (open_tar : List ℕ → Result (List TarMember)) (sha256 : List ℕ → Text) where
  -- The needles are the bytes of the root's path and of the home directory.
  unfoldable pub validate_dist : Files → Text → List (List ℕ) → Result (Unit {0})
  validate_dist dist version extra_needles = do
    assert (same_set (names_of dist) (expected_files version))
    validate_checksums sha256 dist
    validate_plasmoid F open_zip dist version extra_needles
    validate_backend open_tar dist version extra_needles
    validate_bundle open_tar sha256 dist version extra_needles
