-- ===== src/Release/Validation/Source.antt =====
-- scripts/validate-release.py: `read_version`, `validate_source` and `main`. Each regular
-- expression is a scan of the text.
pub mod Version
pub mod Accepted
pub mod Sudo
use ttop_desk.Prelude.{
  ℕ, Bool, true, false, not, ◌&&◌, ◌||◌, Option, none, some, List, [], ◌∷◌, ◌++◌, Text, text,
  starts_with, contains_text, has_char, leb, ◌==◌, length, if◌then◌else◌,
}
use ttop_desk.Python.Exceptions.{Result, ok, err, assertion_error, raise_if, ◌>>=◌, ◌>>◌}
use ttop_desk.Python.Runtime.{Runtime}
use ttop_desk.Python.Strings.{is_empty, is_whitespace, strip}
use ttop_desk.Json.{Json}
use ttop_desk.Json.Decode.{loads}
use ttop_desk.Release.Paths.{split_on, ends_with}
use ttop_desk.Release.Archives.{ZipMember, TarMember}
use ttop_desk.Release.Archives.Entries.{Files, any_text}
use ttop_desk.Release.Validation.{assert, file_at, read_text, all_chars, drop}
use ttop_desk.Release.Validation.Dist.{subscript, equals_text, validate_dist}

abbrev pub plugin_id : Text
plugin_id = text "io.github.s3cb34r.ttopdesk"

-- `[0-9]`
unfoldable pub is_digit : ℕ → Bool
is_digit c = leb b'0' c && leb c b'9'

-- `[0-9]+`
unfoldable pub is_number : Text → Bool
is_number t = not (is_empty t) && all_chars is_digit t

three_numbers : List Text → Bool
three_numbers (a ∷ b ∷ c ∷ []) = is_number a && is_number b && is_number c
three_numbers _ = false

-- `re.fullmatch(r"[0-9]+\.[0-9]+\.[0-9]+", version)`
unfoldable pub is_version : Text → Bool
unfolding three_numbers
is_version version = three_numbers (split_on b'.' version)

unfoldable pub read_version : Files → Result Text
read_version root = do
  content ← read_text root (text "VERSION")
  assert (is_version (strip content))
  ok (strip content)

-- The text begins with a character that passes the test.
unfoldable pub first_is : (ℕ → Bool) → Text → Bool
first_is test [] = false
first_is test (c ∷ cs) = test c

-- `re.search(r"project\(ttop-desk VERSION [0-9]", cmake)`
unfoldable pub has_fixed_version : Text → Bool
has_fixed_version [] = false
has_fixed_version (c ∷ cs) =
    starts_with (text "project(ttop-desk VERSION ") (c ∷ cs) && first_is is_digit (drop 26 (c ∷ cs))
    || has_fixed_version cs

-- `[;&|]`
unfoldable pub is_separator : ℕ → Bool
is_separator c = c == b';' || c == b'&' || c == b'|'

-- The scan for `sudo`: whether the text is at the start of a line, and whether a separator and
-- white space are before it.
unfoldable pub sudo_from : Bool → Bool → Text → Bool
sudo_from line_start separated [] = false
sudo_from line_start separated (c ∷ cs) =
    (line_start || separated)
      && starts_with (text "sudo") (c ∷ cs)
      && (is_empty (drop 4 (c ∷ cs)) || first_is is_whitespace (drop 4 (c ∷ cs)))
    || sudo_from (c == 10) (is_separator c || separated && is_whitespace c) cs

-- `re.search(r"(^|[;&|]\s*)sudo(?:\s|$)", script, re.MULTILINE)`
unfoldable pub runs_sudo : Text → Bool
runs_sudo = sudo_from true false

user_from : Bool → Text → Bool
user_from line_start [] = false
user_from line_start (c ∷ cs) =
    line_start && starts_with (text "User=") (c ∷ cs) || user_from (c == 10) cs

-- `re.search(r"(?m)^User=", service)`
unfoldable pub sets_user : Text → Bool
unfolding user_from
sets_user = user_from true

abbrev pub required_sources : List Text
required_sources =
    text "LICENSE"
    ∷ text "CHANGELOG.md"
    ∷ text "RELEASE-NOTES.md"
    ∷ text "SECURITY.md"
    ∷ text "CONTRIBUTING.md"
    ∷ text ".github/ISSUE_TEMPLATE/bug_report.yml"
    ∷ text ".github/ISSUE_TEMPLATE/feature_request.yml"
    ∷ text ".github/pull_request_template.md"
    ∷ text "docs/GITHUB-READINESS.md"
    ∷ text "docs/RELEASE-CHECKLIST.md"
    ∷ text "docs/RC-QA-0.9.0.md"
    ∷ text "docs/screenshots/full-default-dark.png"
    ∷ text "docs/screenshots/compact-default-dark.png"
    ∷ text "docs/screenshots/process-focused-dark.png"
    ∷ text "release/install.sh"
    ∷ text "release/uninstall.sh"
    ∷ text "release/README.md"
    ∷ text "release/backend-README.md"
    ∷ text "release/ttop-desk-backend.service.in"
    ∷ []

abbrev pub readme_texts : List Text
readme_texts =
    text "## Supported environment"
    ∷ text "## Features"
    ∷ text "## Quick install from a release bundle"
    ∷ text "## Requirements"
    ∷ text "## Known limitations"
    ∷ text "## License"
    ∷ text "docs/screenshots/full-default-dark.png"
    ∷ text "docs/screenshots/compact-default-dark.png"
    ∷ []

-- `(root / name).is_file()`
unfoldable pub is_file : Files → Text → Bool
is_file root name = elim (file_at root name) [ none ↦ false | some _ ↦ true ]

-- A name that `glob("*.png")` gives in docs/screenshots.
unfoldable pub is_screenshot : Text → Bool
is_screenshot name =
    starts_with (text "docs/screenshots/") name
    && not (has_char b'/' (drop 17 name))
    && ends_with (text ".png") name

-- b"\x89PNG\r\n\x1a\n"
abbrev pub png_signature : List ℕ
png_signature = 137 ∷ 80 ∷ 78 ∷ 71 ∷ 13 ∷ 10 ∷ 26 ∷ 10 ∷ []

-- Each screenshot begins with the signature.
unfoldable pub screenshots_valid : Files → Bool
screenshots_valid [] = true
screenshots_valid ((name, payload) ∷ files) =
    (not (is_screenshot name) || starts_with png_signature payload) && screenshots_valid files

-- The body of the loop over the two scripts.
unfoldable pub validate_script : Files → Text → Result (Unit {0})
validate_script root name = do
  script ← read_text root name
  assert (not (contains_text (text "/data/Projects/TTop-Desk") script))
  assert (not (runs_sudo script))

-- The checks of the service file.
unfoldable pub validate_service : Files → Result (Unit {0})
validate_service root = do
  service ← read_text root (text "release/ttop-desk-backend.service.in")
  assert (contains_text (text "RestrictAddressFamilies=AF_UNIX") service)
  assert (contains_text (text "UMask=0077") service)
  assert (not (contains_text (text "PrivateTmp=true") service))
  assert (not (contains_text (text "AF_INET") service))
  assert (not (sets_user service))
  assert (not (contains_text (text "/data/Projects/TTop-Desk") service))

-- The checks of the texts for readers.
unfoldable pub validate_documents : Files → Text → Result (Unit {0})
validate_documents root version = do
  readme ← read_text root (text "README.md")
  assert (not (any_text (λ t. not (contains_text t readme)) readme_texts))
  release_notes ← read_text root (text "RELEASE-NOTES.md")
  changelog ← read_text root (text "CHANGELOG.md")
  security ← read_text root (text "SECURITY.md")
  license_text ← read_text root (text "LICENSE")
  assert (contains_text (text "TTop Desk " ++ version) release_notes)
  assert (contains_text (text "## " ++ version) changelog)
  assert (contains_text (text "GitHub") security && contains_text (text "Security") security)
  assert (contains_text (text "GNU GENERAL PUBLIC LICENSE") license_text)
  assert (screenshots_valid root)

module _ (F : Type 0) ⦃n : Runtime F⦄ where
  -- The checks of the widget's metadata.
  unfoldable pub validate_metadata : Files → Text → Result (Unit {0})
  validate_metadata root version = do
    content ← read_text root (text "package/metadata.json")
    metadata ← loads {F = F} content
    plugin ← subscript metadata (text "KPlugin")
    id ← subscript plugin (text "Id")
    assert (equals_text id plugin_id)
    plugin_version ← subscript plugin (text "Version")
    assert (equals_text plugin_version version)
    license ← subscript plugin (text "License")
    assert (equals_text license (text "GPL-3.0-or-later"))

  unfoldable pub validate_source : Files → Result Text
  validate_source root = do
    version ← read_version root
    validate_metadata root version
    cmake ← read_text root (text "CMakeLists.txt")
    assert (contains_text (text "file(STRINGS \"${CMAKE_CURRENT_SOURCE_DIR}/VERSION\"") cmake)
    assert (not (has_fixed_version cmake))
    assert (not (any_text (λ required. not (is_file root required)) required_sources))
    validate_documents root version
    validate_script root (text "release/install.sh")
    validate_script root (text "release/uninstall.sh")
    validate_service root
    ok version

  -- The exit status of `main`, with the directory of `--dist` if it is given.
  unfoldable pub main :
      (List ℕ → Result (List ZipMember))
      → (List ℕ → Result (List TarMember))
      → (List ℕ → Text)
      → Files
      → Option Files
      → List (List ℕ)
      → Result ℕ
  main open_zip open_tar sha256 root dist extra_needles = do
    version ← validate_source root
    elim dist [
      | none ↦ ok tt
      | some d ↦ validate_dist F open_zip open_tar sha256 d version extra_needles
    ]
    ok 0
