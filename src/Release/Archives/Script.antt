-- ===== src/Release/Archives/Script.antt =====
-- scripts/release_archive.py: `main`, and the file that it leaves at the path of its output.
use ttop_desk.Prelude.{◌≡◌, refl, Bool, true, false, List, [], Text, ℕ, All}
use ttop_desk.Python.Exceptions.{Exception, Result, ok, err}
use ttop_desk.Release.Archives.{
  Entry, Exit, exits, done, ◌>>=◌, ZipMember, TarMember, create_zip, create_tar_gz, source_entries,
}
use ttop_desk.Release.Archives.Entries.{Files, zip_entries, tar_entries}
use ttop_desk.Release.Archives.Entries.Names.{IsPrefix}
use ttop_desk.Release.Archives.Entries.Roundtrip.{
  IsReleasable, regular_files, updated, archives_roundtrip,
}

-- the argument `format`
pub data Format : Type 0 where
  zip tar_gz : Format

pub data Archive : Type 0 where
  zip_archive : List ZipMember → Archive
  tar_archive : List TarMember → Archive

-- The path of the output: what was there before; an archive with the members before the one that
-- ended the script; or the whole archive.
pub data OutputFile : Type 0 where
  unchanged cut_short : OutputFile
  whole : Archive → OutputFile

-- How `main` ends: `parser.error`, `SystemExit` with a message, another exception, or a status.
pub data Ending : Type 0 where
  usage_error : Ending
  exited : Text → Ending
  raised : Exception → Ending
  returned : ℕ → Ending

pub record Outcome : Type 0 where
  pub output : OutputFile
  pub ending : Ending

unfoldable pub create : Format → List Entry → Text → Exit Archive
create zip source prefix = create_zip source prefix >>= λ members. done (zip_archive members)
create tar_gz source prefix = create_tar_gz source prefix >>= λ members. done (tar_archive members)

unfoldable pub after_creation : Exit Archive → Outcome
after_creation (exits message) = record { output = cut_short; ending = exited message }
after_creation (done archive) = record { output = whole archive; ending = returned 0 }

-- `main` with the answer of `is_dir`, and what `mkdir` and `unlink` do
unfoldable pub main :
    Format → Bool → Result (Unit {0}) → Result (Unit {0}) → List Entry → Text → Outcome
main format false made removed source prefix = record { output = unchanged; ending = usage_error }
main format true (err e) removed source prefix = record { output = unchanged; ending = raised e }
main format true (ok _) (err e) source prefix = record { output = unchanged; ending = raised e }
main format true (ok _) (ok _) source prefix = after_creation (create format source prefix)

-- What the validation reads from the archive.
abbrev pub archive_entries : Archive → Result Files
archive_entries (zip_archive members) = zip_entries members
archive_entries (tar_archive members) = tar_entries members

-- A source directory with clean names gives, in each format, a whole archive and the status 0, and
-- the validation reads from it the content of each file under its name.
pub main_readable :
    (format : Format) (source : List Entry) (prefix : Text)
    → All IsReleasable source
    → IsPrefix prefix
    → (archive : Archive) × (main format true (ok tt) (ok tt) source prefix
        ≡ record { output = whole archive; ending = returned 0 })
      × (archive_entries archive ≡ ok (updated [] (regular_files (source_entries source) prefix)))
unfolding main create after_creation
main_readable zip source prefix h p =
    let (_, (members, written, read)) = archives_roundtrip source prefix h p in
    (zip_archive members, rw written refl, read)
main_readable tar_gz source prefix h p =
    let ((members, written, read), _) = archives_roundtrip source prefix h p in
    (tar_archive members, rw written refl, read)

-- The status is 0 only with a whole archive at the output's path.
pub main_output :
    (format : Format) (is_dir : Bool) (made removed : Result (Unit {0})) (source : List Entry)
    (prefix : Text) (o : Outcome)
    → main format is_dir made removed source prefix ≡ o
    → o.ending ≡ returned 0
    → (archive : Archive) × (o.output ≡ whole archive)
      × (create format source prefix ≡ done archive)
unfolding main after_creation
main_output format false made removed source prefix o e h = cc
main_output format true (err x) removed source prefix o e h = cc
main_output format true (ok _) (err x) source prefix o e h = cc
main_output format true (ok _) (ok _) source prefix o e h = go (create format source prefix) refl e
  where
    go :
        (c : Exit Archive)
        → create format source prefix ≡ c
        → after_creation c ≡ o
        → (archive : Archive) × (o.output ≡ whole archive)
          × (create format source prefix ≡ done archive)
    go (exits message) p q = cc
    go (done archive) p q = (archive, cc, p)
