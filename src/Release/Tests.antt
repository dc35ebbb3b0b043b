-- ===== src/Release/Tests.antt =====
-- The theorems on releases, at a small source tree and a small release.
mod Data
use mathlib.Core.List.{Permᴰ}
use ttop_desk.Prelude.{
  ℕ, ◌≡◌, ◌↔◌, ◌⊎◌, inl, inr, refl, Bool, true, false, Option, none, some, List, [], ◌∷◌, ◌++◌, map,
  Text, text, All, arith, Lacks, zero, suc, text_lt, text_eq, member_text, has_char, has_char→Lacks,
  ℤ, if◌then◌else◌, ◌==◌,
}
use ttop_desk.Python.Exceptions.{Result, ok, err, other_error}
use ttop_desk.Python.Runtime.Integers.{integers}
use ttop_desk.Python.Strings.{strip}
use ttop_desk.Release.Paths.{PurePath, parse_path, joined, ends_with}
use ttop_desk.Release.Archives.{
  Entry, Kind, directory, regular, TarMember, ZipMember, create_zip, create_tar_gz, done,
  source_entries, owned_by_root, fixed_zip_time, directory_type, regular_type,
}
use ttop_desk.Release.Archives.Order.{archives_reproducible}
use ttop_desk.Release.Archives.Entries.{
  is_developer_part, Files, safe_name, tar_entries, zip_entries,
}
use ttop_desk.Release.Archives.Entries.Safety.{walk, safe_name_stays_below}
use ttop_desk.Release.Archives.Entries.Roundtrip.{
  IsReleasable, regular_files, updated, archives_roundtrip,
}
use ttop_desk.Release.Archives.Entries.Names.{IsCleanPart}
use ttop_desk.Release.Validation.{read_text, validate_checksums}
use ttop_desk.Release.Validation.Checksums.{AreSums, validate_checksums_iff}
use ttop_desk.Release.Validation.Dist.{
  plasmoid_name, backend_name, bundle_name, catalog, required_plasmoid, required_backend,
  required_bundle, backend_root, bundle_root,
}
use ttop_desk.Release.Validation.Dist.Accepted.{IsRelease}
use ttop_desk.Release.Validation.Source.{png_signature, read_version, main, required_sources}
use ttop_desk.Release.Validation.Source.Accepted.{IsSource, main_sound}
use ttop_desk.Release.Tests.Data.{
  folder, program, tree, found_late, digits, all_a, sums, empty_files, version, metadata, dist,
  root, zip_of, tar_of, open_zip, bundled, open_tar,
}

run_above : text_lt (text "bin") (text "bin/run") ≡ true
unfolding text_lt
run_above = refl

archives_reproducible_example :
    (create_zip tree (text "x") ≡ create_zip found_late (text "x"))
    × (create_tar_gz tree (text "x") ≡ create_tar_gz found_late (text "x"))
unfolding ttop_desk.Release.Paths.join
archives_reproducible_example =
    archives_reproducible tree found_late (text "x") (Permᴰ.swap refl refl)
      ((inr run_above, tt), (tt, tt))

bin_clean : IsCleanPart (text "bin")
unfolding text_eq is_developer_part member_text ends_with has_char
bin_clean = ((refl, has_char→Lacks 47 (text "bin") refl), refl, refl)

run_clean : IsCleanPart (text "run")
unfolding text_eq is_developer_part member_text ends_with has_char
run_clean = ((refl, has_char→Lacks 47 (text "run") refl), refl, refl)

x_clean : IsCleanPart (text "x")
unfolding text_eq is_developer_part member_text ends_with has_char
x_clean = ((refl, has_char→Lacks 47 (text "x") refl), refl, refl)

tree-IsReleasable : All IsReleasable tree
tree-IsReleasable = (((bin_clean, (run_clean, tt)), inr refl), (((bin_clean, tt), inl refl), tt))

abbrev read_back : Files
read_back = updated [] (regular_files (source_entries tree) (text "x"))

-- What is read back is the one file.
read_back_run : read_back ≡ (text "x/bin/run", 1 ∷ 2 ∷ []) ∷ []
unfolding updated regular_files source_entries ttop_desk.Python.Sort.sorted text_lt
    ttop_desk.Release.Paths.join ttop_desk.Python.Dict.insert
    ttop_desk.Release.Archives.archive_name ttop_desk.Release.Paths.as_posix joined parse_path
    text_eq
read_back_run = refl

archives_roundtrip_example :
    ((members : List TarMember) × (create_tar_gz tree (text "x") ≡ done members)
      × (tar_entries members ≡ ok read_back))
    × ((members : List ZipMember) × (create_zip tree (text "x") ≡ done members)
        × (zip_entries members ≡ ok read_back))
archives_roundtrip_example = archives_roundtrip tree (text "x") tree-IsReleasable (inr x_clean)

below : safe_name (text "a/./b") ≡ ok (parse_path (text "a/./b"))
unfolding safe_name ttop_desk.Release.Paths.is_absolute parse_path member_text
below = refl

safe_name_stays_below_example :
    walk (text "tmp" ∷ []) (joined (parse_path (text "../dist")) (parse_path (text "a/./b"))).parts
    ≡ walk (text "tmp" ∷ []) (parse_path (text "../dist")).parts
      ++ (parse_path (text "a/./b")).parts
safe_name_stays_below_example =
    safe_name_stays_below (text "a/./b") (parse_path (text "a/./b")) (parse_path (text "../dist"))
      (text "tmp" ∷ []) below

sums_checked : validate_checksums all_a dist ≡ ok tt
unfolding validate_checksums read_text ttop_desk.Release.Validation.file_at
    ttop_desk.Python.Dict.lookup text_eq ttop_desk.Release.Paths.as_posix parse_path
    ttop_desk.Release.Validation.decoded_text ttop_desk.Python.Strings.decode_utf8
    ttop_desk.Release.Validation.splitlines ttop_desk.Release.Validation.is_line_break
    ttop_desk.Python.Exceptions.map_result ttop_desk.Release.Validation.checksum_name
    ttop_desk.Release.Validation.match_checksum ttop_desk.Release.Validation.all_chars
    ttop_desk.Release.Validation.is_hex ttop_desk.Release.Validation.drop has_char member_text
    ttop_desk.Prelude.starts_with text_lt ttop_desk.Python.Sort.sorted safe_name
    ttop_desk.Release.Paths.is_absolute ttop_desk.Release.Paths.join ttop_desk.Release.Paths.prepend
    ttop_desk.Release.Paths.split_on ttop_desk.Release.Validation.same_texts
sums_checked = refl

validate_checksums_iff_example : AreSums all_a dist
validate_checksums_iff_example = (validate_checksums_iff all_a dist).0 sums_checked

version_read : read_version root ≡ ok version
unfolding read_version read_text ttop_desk.Release.Validation.file_at ttop_desk.Python.Dict.lookup
    text_eq ttop_desk.Release.Paths.as_posix parse_path ttop_desk.Release.Validation.decoded_text
    ttop_desk.Python.Strings.decode_utf8 ttop_desk.Release.Validation.Source.is_version strip
    ttop_desk.Release.Validation.Source.is_number ttop_desk.Release.Validation.all_chars
    ttop_desk.Release.Validation.Source.is_digit
version_read = refl

accepted : main ℤ open_zip open_tar all_a root (some dist) [] ≡ ok 0
unfolding main ttop_desk.Release.Validation.all_chars
    ttop_desk.Release.Archives.Entries.any_contained ttop_desk.Release.Archives.Entries.any_text
    ttop_desk.Release.Paths.as_posix ttop_desk.Release.Validation.Dist.assert_all_portable
    ttop_desk.Release.Validation.Dist.assert_bundled_line
    ttop_desk.Release.Archives.Entries.assert_clean_name
    ttop_desk.Release.Archives.Entries.assert_portable_bytes
    ttop_desk.Release.Validation.checksum_name ttop_desk.Release.Validation.decoded_text
    ttop_desk.Release.Validation.drop ttop_desk.Release.Paths.ends_with
    ttop_desk.Release.Validation.Dist.equals_text ttop_desk.Release.Validation.file_at
    ttop_desk.Release.Validation.Source.first_is
    ttop_desk.Release.Validation.Source.has_fixed_version ttop_desk.Release.Paths.is_absolute
    ttop_desk.Release.Archives.Entries.is_developer_part
    ttop_desk.Release.Validation.Source.is_digit ttop_desk.Release.Validation.Source.is_file
    ttop_desk.Release.Validation.is_hex ttop_desk.Release.Validation.is_line_break
    ttop_desk.Release.Validation.Source.is_number ttop_desk.Release.Validation.Source.is_screenshot
    ttop_desk.Release.Validation.Source.is_separator ttop_desk.Release.Validation.Dist.is_subset
    ttop_desk.Release.Validation.Source.is_version ttop_desk.Release.Paths.join
    ttop_desk.Release.Validation.match_checksum ttop_desk.Release.Archives.Entries.member_name
    ttop_desk.Release.Archives.owned_by_root ttop_desk.Release.Paths.parse_path
    ttop_desk.Release.Paths.prepend ttop_desk.Release.Validation.read_text
    ttop_desk.Release.Validation.Source.read_version ttop_desk.Release.Validation.Source.runs_sudo
    ttop_desk.Release.Archives.Entries.safe_name ttop_desk.Release.Validation.Dist.same_set
    ttop_desk.Release.Validation.same_texts ttop_desk.Release.Validation.Source.screenshots_valid
    ttop_desk.Release.Validation.Source.sets_user ttop_desk.Release.Paths.split_on
    ttop_desk.Release.Validation.splitlines ttop_desk.Release.Validation.Dist.subscript
    ttop_desk.Release.Validation.Source.sudo_from ttop_desk.Release.Archives.Entries.tar_entries
    ttop_desk.Release.Archives.Entries.tar_entries_from
    ttop_desk.Release.Validation.Dist.validate_backend
    ttop_desk.Release.Validation.Dist.validate_bundle
    ttop_desk.Release.Validation.validate_checksums ttop_desk.Release.Validation.Dist.validate_dist
    ttop_desk.Release.Validation.Source.validate_documents
    ttop_desk.Release.Validation.Source.validate_metadata
    ttop_desk.Release.Validation.Dist.validate_plasmoid
    ttop_desk.Release.Validation.Source.validate_script
    ttop_desk.Release.Validation.Source.validate_service
    ttop_desk.Release.Validation.Source.validate_source
    ttop_desk.Release.Archives.Entries.zip_entries
    ttop_desk.Release.Archives.Entries.zip_entries_from
    ttop_desk.Release.Archives.Entries.zip_is_dir ttop_desk.Python.Dict.lookup
    ttop_desk.Python.Dict.insert ttop_desk.Json.Decode.loads ttop_desk.Json.to_dict
    ttop_desk.Python.Strings.decode_utf8 ttop_desk.Python.Strings.strip
    ttop_desk.Python.Exceptions.map_result ttop_desk.Python.Sort.sorted
    ttop_desk.Prelude.member_text ttop_desk.Prelude.text_eq ttop_desk.Prelude.text_lt
    ttop_desk.Prelude.starts_with ttop_desk.Prelude.has_char ttop_desk.Prelude.contains_text
    ttop_desk.Python.Strings.is_whitespace
accepted = refl

main_sound_example :
    (v : Text) × IsSource ℤ root v × IsRelease ℤ open_zip open_tar all_a dist v [] × ◌≡◌ {A = ℕ} 0 0
main_sound_example = main_sound ℤ open_zip open_tar all_a root dist [] 0 accepted
