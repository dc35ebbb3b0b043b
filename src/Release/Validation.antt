-- ===== src/Release/Validation.antt =====
-- scripts/validate-release.py: how it reads the files below a directory, and the checksums. A
-- directory is the list of its files, each with the name that `as_posix` gives below it.
pub mod Checksums
pub mod Dist
pub mod Source
use ttop_desk.Prelude.{
  ℕ, zero, suc, Bool, true, false, not, ◌&&◌, ◌||◌, Option, none, some, List, [], ◌∷◌, Text, text,
  text_eq, text_lt, has_char, starts_with, leb, ◌==◌, take, length, if◌then◌else◌, Bool,
}
use ttop_desk.Python.Exceptions.{
  Result, ok, err, os_error, value_error, assertion_error, raise_if, or_raise, map_result, ◌>>=◌,
  ◌>>◌,
}
use ttop_desk.Python.Dict.{lookup, text_key}
use ttop_desk.Python.Sort.{sorted}
use ttop_desk.Python.Strings.{decode_utf8, is_empty}
use ttop_desk.Release.Paths.{prepend, parse_path, as_posix}
use ttop_desk.Release.Archives.Entries.{Files, safe_name}

-- `assert test`
abbrev pub assert : Bool → Result (Unit {0})
assert test = raise_if (not test) assertion_error

-- `(directory / name).read_bytes()`, where `none` is that `is_file` is false
unfoldable pub file_at : Files → Text → Option (List ℕ)
file_at directory name = lookup (as_posix (parse_path name)) directory

-- What text mode makes of line ends, after a carriage return or not.
newlines_from : Bool → Text → Text
newlines_from after [] = []
newlines_from after (c ∷ cs) =
    let rest = newlines_from (c == 13) cs in
    if c == 13 then 10 ∷ rest else if after && c == 10 then rest else c ∷ rest

-- `(directory / name).read_text(encoding="utf-8")`, and the text of the bytes
unfoldable pub decoded_text : List ℕ → Result Text
unfolding newlines_from
decoded_text bytes = do t ← or_raise value_error (decode_utf8 bytes); ok (newlines_from false t)

unfoldable pub read_text : Files → Text → Result Text
read_text directory name = or_raise os_error (file_at directory name) >>= decoded_text

-- A character at which `str.splitlines` ends a line.
unfoldable pub is_line_break : ℕ → Bool
is_line_break c = leb 10 c && leb c 13 || leb 28 c && leb c 30 || c == 133 || c == 8232 || c == 8233

unfoldable pub splitlines : Text → List Text
splitlines [] = []
splitlines (c ∷ cs) =
    let rest = splitlines cs in
    if c == 13 && starts_with (10 ∷ []) cs
    then rest
    else if is_line_break c
    then [] ∷ rest
    else prepend c rest

-- `[0-9a-f]`
unfoldable pub is_hex : ℕ → Bool
is_hex c = leb b'0' c && leb c b'9' || leb b'a' c && leb c b'f'

unfoldable pub all_chars : (ℕ → Bool) → Text → Bool
all_chars test [] = true
all_chars test (c ∷ cs) = test c && all_chars test cs

unfoldable pub drop : ℕ → Text → Text
drop zero s = s
drop (suc n) [] = []
drop (suc n) (c ∷ cs) = drop n cs

-- The groups of `re.fullmatch(r"([0-9a-f]{64})  (.+)", line)`.
unfoldable pub match_checksum : Text → Option (Text × Text)
match_checksum line =
    let digest = take 64 line in
    let name = drop 66 line in
    if length digest == 64
      && all_chars is_hex digest
      && starts_with (text "  ") (drop 64 line)
      && not (is_empty name)
      && not (has_char 10 name)
    then some (digest, name)
    else none

-- `a == b` of lists
unfoldable pub same_texts : List Text → List Text → Bool
same_texts [] [] = true
same_texts (x ∷ xs) (y ∷ ys) = text_eq x y && same_texts xs ys
same_texts _ _ = false

abbrev pub no_lines : List Text → Bool
no_lines [] = true
no_lines (_ ∷ _) = false

-- `sha256` is `hashlib.sha256(payload).hexdigest()`.
module _ (sha256 : List ℕ → Text) where
  -- The body of the loop of `validate_checksums`, which gives the name.
  unfoldable pub checksum_name : Files → Text → Result Text
  checksum_name dist line = do
    groups ← or_raise assertion_error (match_checksum line)
    _ ← safe_name groups.1
    payload ← or_raise assertion_error (file_at dist groups.1)
    assert (text_eq (sha256 payload) groups.0)
    ok groups.1

  unfoldable pub validate_checksums : Files → Result (Unit {0})
  validate_checksums dist = do
    content ← read_text dist (text "SHA256SUMS")
    assert (not (no_lines (splitlines content)))
    names ← map_result (checksum_name dist) (splitlines content)
    assert (same_texts names (sorted text_lt names))
