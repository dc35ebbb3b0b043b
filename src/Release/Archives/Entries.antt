-- ===== src/Release/Archives/Entries.antt =====
-- scripts/validate-release.py: names in archives, and what `zip_entries` and `tar_entries` read.
pub mod Safety
pub mod Names
pub mod Roundtrip
use ttop_desk.Prelude.{
  ℕ, Bool, true, false, not, ◌||◌, List, [], ◌∷◌, Text, text, member_text, if◌then◌else◌,
  contains_text, ◌++◌,
}
use ttop_desk.Python.Exceptions.{Result, ok, err, assertion_error, raise_if, ◌>>=◌, ◌>>◌}
use ttop_desk.Python.Dict.{insert, text_key}
use ttop_desk.Release.Paths.{PurePath, parse_path, is_absolute, ends_with, rstrip_char}
use ttop_desk.Release.Archives.{
  ZipMember, TarMember, MemberType, directory_type, regular_type, other_type,
}

abbrev pub forbidden_names : List Text
forbidden_names =
    text ".git" ∷ text "__pycache__" ∷ text ".pytest_cache" ∷ text "tests" ∷ text "visual" ∷ []

-- Parts of an absolute path start with its root, which is not "..".
unfoldable pub safe_name : Text → Result PurePath
safe_name name =
    let path = parse_path name in
    do raise_if (is_absolute path || member_text (text "..") path.parts) assertion_error; ok path

-- A part of a developer's tree, or of a cache.
unfoldable pub is_developer_part : Text → Bool
is_developer_part part = member_text part forbidden_names || ends_with (text ".pyc") part

unfoldable pub any_text : (Text → Bool) → List Text → Bool
any_text test [] = false
any_text test (t ∷ ts) = test t || any_text test ts

unfoldable pub assert_clean_name : Text → Result (Unit {0})
assert_clean_name name = do
  path ← safe_name name
  raise_if (any_text is_developer_part path.parts) assertion_error

-- A dict from names to the data of the members.
abbrev pub Files : Type 0
Files = List (Text × List ℕ)

-- `info.is_dir()`
unfoldable pub zip_is_dir : ZipMember → Bool
zip_is_dir info = ends_with (text "/") info.filename

unfoldable pub zip_entries_from : Files → List ZipMember → Result Files
zip_entries_from result [] = ok result
zip_entries_from result (info ∷ rest) =
    assert_clean_name info.filename
    >> zip_entries_from
        (if zip_is_dir info then result else insert info.filename info.payload result) rest

unfoldable pub zip_entries : List ZipMember → Result Files
zip_entries archive = zip_entries_from [] archive

-- The name that `tarfile` reads: a directory's is without the slashes at its end.
unfoldable pub member_name : TarMember → Text
member_name member = elim member.type [
  | directory_type ↦ rstrip_char b'/' member.name
  | _ ↦ member.name
]

unfoldable pub tar_entries_from : Files → List TarMember → Result Files
tar_entries_from result [] = ok result
tar_entries_from result (member ∷ rest) =
    assert_clean_name (member_name member) >> elim member.type [
      | regular_type ↦ tar_entries_from (insert (member_name member) member.payload result) rest
      | directory_type ↦ tar_entries_from result rest
      | other_type ↦ err assertion_error
    ]

unfoldable pub tar_entries : List TarMember → Result Files
tar_entries archive = tar_entries_from [] archive

-- FORBIDDEN_BYTES
abbrev pub forbidden_bytes : List (List ℕ)
forbidden_bytes =
    text "/data/Projects/TTop-Desk"
    ∷ text "/home/yannic"
    ∷ text "/tmp/ttop-desk"
    ∷ text "/workspace/"
    ∷ []

-- Some text of the list occurs in the payload.
unfoldable pub any_contained : List (List ℕ) → List ℕ → Bool
any_contained [] payload = false
any_contained (needle ∷ needles) payload =
    contains_text needle payload || any_contained needles payload

unfoldable pub assert_portable_bytes : List ℕ → List (List ℕ) → Result (Unit {0})
assert_portable_bytes payload extra_needles =
    raise_if (any_contained (forbidden_bytes ++ extra_needles) payload) assertion_error
