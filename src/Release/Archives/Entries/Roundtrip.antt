-- ===== src/Release/Archives/Entries/Roundtrip.antt =====
-- What is read from an archive that was written.
use ttop_desk.Prelude.{
  ◌≡◌, ◌⊎◌, inl, inr, refl, ◌∙◌, List, [], ◌∷◌, ◌++◌, if◌then◌else◌, Text, text, All,
}
use ttop_desk.Python.Exceptions.{ok}
use ttop_desk.Python.Strings.{is_empty}
use ttop_desk.Python.Dict.{insert, text_key}
use ttop_desk.Python.Sort.Laws.{All-sorted}
use ttop_desk.Release.Archives.{
  Entry, directory, regular, entry_lt, source_entries, archive_name, done, ZipMember, TarMember,
  zip_member, zip_loop, create_zip, tar_loop, create_tar_gz, owned_by_root, root_member,
  directory_type, regular_type, normalized_mode,
}
use ttop_desk.Release.Archives.Entries.{
  Files, zip_is_dir, zip_entries_from, zip_entries, member_name, tar_entries_from, tar_entries,
}
use ttop_desk.Release.Archives.Entries.Names.{
  IsCleanPath, IsPrefix, archive_name-IsMemberName, prefix-IsMemberName, rstrip_char-prefix,
  is_kept→nonempty,
}

-- A path that a release may have: clean parts, and a file or a directory.
abbrev pub IsReleasable : Entry → Type 0
IsReleasable e = IsCleanPath e.parts × ((e.kind ≡ directory) ⊎ (e.kind ≡ regular))

-- The files among the paths, with their names in the archive.
unfoldable pub regular_files : List Entry → Text → Files
regular_files [] prefix = []
regular_files (e ∷ es) prefix =
    let rest = regular_files es prefix in
    elim e.kind [ regular ↦ (archive_name e prefix, e.content) ∷ rest | _ ↦ rest ]

-- `result.update(files)`
unfoldable pub updated : Files → Files → Files
updated result [] = result
updated result ((name, payload) ∷ files) = updated (insert name payload result) files

module _ (prefix : Text) (p : IsPrefix prefix) where
  -- What is read on top of a dict.
  abbrev TarRead : List Entry → Type 0
  TarRead es =
      (members : List TarMember) × (tar_loop es prefix ≡ done members)
      × ((result : Files)
          → tar_entries_from result members ≡ ok (updated result (regular_files es prefix)))

  tar_loop-read : (es : List Entry) → All IsReleasable es → TarRead es
  unfolding tar_loop tar_entries_from regular_files updated owned_by_root member_name
  tar_loop-read [] h = ([], refl, λ result. refl)
  tar_loop-read (e ∷ es) ((path, inl d), h) =
      let (members, written, read) = tar_loop-read es h in
      let name = archive_name-IsMemberName e prefix path p in
      (
        owned_by_root (archive_name e prefix ++ text "/") directory_type (normalized_mode e) []
            ∷ members,
        simp (d, written) refl,
        λ result. simp (d, name.stripped, name.clean) (read result),
      )
  tar_loop-read (e ∷ es) ((path, inr r), h) =
      let (members, written, read) = tar_loop-read es h in
      let name = archive_name-IsMemberName e prefix path p in
      (
        owned_by_root (archive_name e prefix) regular_type (normalized_mode e) e.content ∷ members,
        simp (r, written) refl,
        λ result. simp (r, name.clean) (read (insert (archive_name e prefix) e.content result)),
      )

  abbrev ZipRead : List Entry → Type 0
  ZipRead es =
      (members : List ZipMember) × (zip_loop es prefix ≡ done members)
      × ((result : Files)
          → zip_entries_from result members ≡ ok (updated result (regular_files es prefix)))

  zip_loop-read : (es : List Entry) → All IsReleasable es → ZipRead es
  unfolding zip_loop zip_entries_from regular_files updated zip_member zip_is_dir
  zip_loop-read [] h = ([], refl, λ result. refl)
  zip_loop-read (e ∷ es) ((path, inl d), h) =
      let (members, written, read) = zip_loop-read es h in
      (members, simp d written, λ result. simp d (read result))
  zip_loop-read (e ∷ es) ((path, inr r), h) =
      let (members, written, read) = zip_loop-read es h in
      let name = archive_name-IsMemberName e prefix path p in
      (
        zip_member e prefix ∷ members,
        simp (r, written) refl,
        λ result.
            simp (r, name.clean, name.of_file)
              (read (insert (archive_name e prefix) e.content result)),
      )

-- The first member of a tar archive is its directory.
tar_entries-root :
    (prefix : Text) (members : List TarMember)
    → IsPrefix prefix
    → tar_entries (if is_empty prefix then members else root_member prefix ∷ members)
      ≡ tar_entries members
unfolding tar_entries tar_entries_from root_member owned_by_root member_name
tar_entries-root prefix members (inl p) = rw p refl
tar_entries-root prefix members (inr p) =
    let name = prefix-IsMemberName prefix p in
    rw (is_kept→nonempty prefix p.0.0, rstrip_char-prefix prefix p, name.stripped, name.clean) refl

-- Where the source has only files and directories with clean names, and the prefix is empty or one
-- clean part, `create_tar_gz` and `create_zip` both succeed, and `tar_entries` and `zip_entries`
-- read from them the same dict: the content of each file under its name in the archive.
pub archives_roundtrip :
    (source : List Entry) (prefix : Text)
    → All IsReleasable source
    → IsPrefix prefix
    → ((members : List TarMember) × (create_tar_gz source prefix ≡ done members)
        × (tar_entries members ≡ ok (updated [] (regular_files (source_entries source) prefix))))
      × ((members : List ZipMember) × (create_zip source prefix ≡ done members)
          × (zip_entries members ≡ ok (updated [] (regular_files (source_entries source) prefix))))
unfolding create_tar_gz create_zip source_entries zip_entries
archives_roundtrip source prefix h p =
    let sorted_source = All-sorted entry_lt IsReleasable source h in
    let (tar_members, tar_written, tar_read) =
      tar_loop-read prefix p (source_entries source) sorted_source in
    let (zip_members, zip_written, zip_read) =
      zip_loop-read prefix p (source_entries source) sorted_source in
    (
      (
        (if is_empty prefix then tar_members else root_member prefix ∷ tar_members),
        rw tar_written refl,
        tar_entries-root prefix tar_members p ∙ (unfold tar_entries in tar_read []),
      ),
      (zip_members, zip_written, zip_read []),
    )
