-- ===== src/Release/Tests/Data.antt =====
-- A small source tree, and a small release with its sources.
use ttop_desk.Prelude.{
  ℕ, true, List, [], ◌∷◌, ◌++◌, Text, text, zero, suc, text_eq, if◌then◌else◌, ◌==◌,
}
use ttop_desk.Python.Exceptions.{Result, ok, err, other_error}
use ttop_desk.Python.Runtime.Integers.{integers}
use ttop_desk.Release.Archives.{
  Entry, directory, regular, TarMember, ZipMember, owned_by_root, fixed_zip_time, regular_type,
}
use ttop_desk.Release.Archives.Entries.{Files}
use ttop_desk.Release.Validation.Dist.{
  plasmoid_name, backend_name, bundle_name, catalog, required_backend, required_bundle, bundle_root,
}
use ttop_desk.Release.Validation.Source.{png_signature}

abbrev pub folder : Entry
folder = record { parts = text "bin" ∷ []; kind = directory; executable = true; content = [] }

abbrev pub program : Entry
program = record {
  parts = text "bin" ∷ text "run" ∷ [];
  kind = regular;
  executable = true;
  content = 1 ∷ 2 ∷ [];
}

abbrev pub tree : List Entry
tree = program ∷ folder ∷ []

abbrev pub found_late : List Entry
found_late = folder ∷ program ∷ []

abbrev pub digits : ℕ → Text
digits zero = []
digits (suc n) = b'a' ∷ digits n

-- A digest that does not look at its payload.
abbrev pub all_a : List ℕ → Text
all_a _ = digits 64

abbrev pub sums : Text
sums = digits 64 ++ text "  LICENSE"

-- Files with a content, and empty ones.
abbrev pub empty_files : List Text → Files
empty_files [] = []
empty_files (name ∷ names) = (name, []) ∷ empty_files names

abbrev pub version : Text
version = text "0.9.0"

abbrev pub metadata : Text
metadata =
    text
      "{\"KPlugin\":{\"Id\":\"io.github.s3cb34r.ttopdesk\",\"Version\":\"0.9.0\",\"License\":\"GPL-3.0-or-later\"}}"

abbrev pub dist : Files
dist =
    (text "CHANGELOG.md", [])
    ∷ (text "LICENSE", [])
    ∷ (text "README.md", [])
    ∷ (text "RELEASE-NOTES.md", [])
    ∷ (text "SHA256SUMS", sums)
    ∷ (text "VERSION", [])
    ∷ (text "install.sh", [])
    ∷ (text "uninstall.sh", [])
    ∷ (text "locale/de/LC_MESSAGES/" ++ catalog, [])
    ∷ (plasmoid_name version, 0 ∷ [])
    ∷ (backend_name version, 1 ∷ [])
    ∷ (bundle_name version, 2 ∷ [])
    ∷ []

abbrev pub root : Files
root =
    (text "VERSION", text "0.9.0\n")
    ∷ (text "package/metadata.json", metadata)
    ∷ (text "CMakeLists.txt", text "file(STRINGS \"${CMAKE_CURRENT_SOURCE_DIR}/VERSION\"")
    ∷ (
      text "README.md",
      text
          "## Supported environment## Features## Quick install from a release bundle## Requirements## Known limitations## Licensedocs/screenshots/full-default-dark.pngdocs/screenshots/compact-default-dark.png",
    )
    ∷ (text "RELEASE-NOTES.md", text "TTop Desk 0.9.0")
    ∷ (text "CHANGELOG.md", text "## 0.9.0")
    ∷ (text "SECURITY.md", text "GitHub Security")
    ∷ (text "LICENSE", text "GNU GENERAL PUBLIC LICENSE")
    ∷ (text "release/install.sh", text "pseudo ")
    ∷ (
      text "release/ttop-desk-backend.service.in",
      text "RestrictAddressFamilies=AF_UNIX UMask=0077",
    )
    ∷ (text "docs/screenshots/full-default-dark.png", png_signature)
    ∷ (text "docs/screenshots/compact-default-dark.png", png_signature)
    ∷ (text "docs/screenshots/process-focused-dark.png", png_signature)
    ∷ empty_files (
        text "CONTRIBUTING.md"
        ∷ text ".github/ISSUE_TEMPLATE/bug_report.yml"
        ∷ text ".github/ISSUE_TEMPLATE/feature_request.yml"
        ∷ text ".github/pull_request_template.md"
        ∷ text "docs/GITHUB-READINESS.md"
        ∷ text "docs/RELEASE-CHECKLIST.md"
        ∷ text "docs/RC-QA-0.9.0.md"
        ∷ text "release/uninstall.sh"
        ∷ text "release/README.md"
        ∷ text "release/backend-README.md"
        ∷ [])

-- Members of the archives, each with a name and nothing in it but the metadata and the sums.
abbrev pub zip_of : Files → List ZipMember
zip_of [] = []
zip_of ((name, payload) ∷ files) =
    record {
      filename = name;
      date_time = fixed_zip_time;
      create_system = 3;
      external_attr = 0;
      flag_bits = 0;
      payload = payload;
    }
    ∷ zip_of files

abbrev pub tar_of : Files → List TarMember
unfolding owned_by_root
tar_of [] = []
tar_of ((name, payload) ∷ files) = owned_by_root name regular_type 420 payload ∷ tar_of files

abbrev pub open_zip : List ℕ → Result (List ZipMember)
open_zip _ = ok (
    zip_of (
      (text "metadata.json", metadata)
      ∷ empty_files (
          text "contents/ui/main.qml"
          ∷ text "contents/config/main.xml"
          ∷ text "contents/ui/TTop/Runtime/qmldir"
          ∷ text "contents/ui/TTop/Runtime/libttopruntimeplugin.so"
          ∷ [])))

-- A member of the bundle: the sums, or an empty file.
abbrev pub bundled : List Text → Files
bundled [] = []
bundled (name ∷ names) =
    (name, if text_eq name (bundle_root version ++ text "SHA256SUMS") then sums else [])
    ∷ bundled names

abbrev pub open_tar : List ℕ → Result (List TarMember)
open_tar [] = err other_error
open_tar (byte ∷ _) = ok (
    tar_of (
      if byte == 1
      then empty_files (required_backend version)
      else bundled (required_bundle version)))
