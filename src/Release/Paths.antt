-- ===== src/Release/Paths.antt =====
-- What the release scripts use of `pathlib.PurePosixPath`: parsing, `/`, `as_posix`; and the
-- methods of `str` around it.
pub mod Laws
use ttop_desk.Prelude.{
  ℕ, Bool, true, false, not, ◌&&◌, ◌||◌, List, [], ◌∷◌, ◌++◌, Text, text, text_eq, starts_with,
  ◌==◌, if◌then◌else◌,
}
use ttop_desk.Python.Strings.{is_empty}

-- Puts a character in front of the first text.
unfoldable pub prepend : ℕ → List Text → List Text
prepend c [] = (c ∷ []) ∷ []
prepend c (t ∷ ts) = (c ∷ t) ∷ ts

-- `s.split(c)` for one character
unfoldable pub split_on : ℕ → Text → List Text
unfolding prepend
split_on c [] = [] ∷ []
split_on c (x ∷ xs) = let rest = split_on c xs in if x == c then [] ∷ rest else prepend x rest

-- `c.join(ts)` for one character
unfoldable pub join : ℕ → List Text → Text
join c [] = []
join c (t ∷ []) = t
join c (t ∷ u ∷ ts) = t ++ c ∷ join c (u ∷ ts)

-- `s.endswith(end)`
unfoldable pub ends_with : Text → Text → Bool
unfolding text_eq
ends_with end [] = is_empty end
ends_with end (x ∷ xs) = text_eq (x ∷ xs) end || ends_with end xs

-- `s.rstrip(c)` for one character
unfoldable pub rstrip_char : ℕ → Text → Text
rstrip_char c [] = []
rstrip_char c (x ∷ xs) =
    let rest = rstrip_char c xs in if is_empty rest && x == c then [] else x ∷ rest

-- A path: its root is empty, "/" or "//", and its parts are without the root.
pub record PurePath : Type 0 where
  pub root : Text
  pub parts : List Text

-- A part that parsing keeps: not empty, and not ".".
abbrev pub is_kept : Text → Bool
is_kept part = not (is_empty part) && not (text_eq part (text "."))

kept_parts : List Text → List Text
kept_parts [] = []
kept_parts (p ∷ ps) = let rest = kept_parts ps in if is_kept p then p ∷ rest else rest

-- Two slashes at the start are kept as they are, any other number of them is one.
root_of : Text → Text
unfolding starts_with
root_of name =
    if starts_with (text "/") name
    then if starts_with (text "//") name && not (starts_with (text "///") name)
      then text "//"
      else text "/"
    else []

-- `PurePosixPath(name)`
unfoldable pub parse_path : Text → PurePath
unfolding root_of kept_parts split_on
parse_path name = record { root = root_of name; parts = kept_parts (split_on b'/' name) }

unfoldable pub is_absolute : PurePath → Bool
is_absolute path = not (is_empty path.root)

-- `base / path`
unfoldable pub joined : PurePath → PurePath → PurePath
unfolding is_absolute
joined base path =
    if is_absolute path then path else record { root = base.root; parts = base.parts ++ path.parts }

-- `path.as_posix()`
unfoldable pub as_posix : PurePath → Text
unfolding join
as_posix path =
    let whole = path.root ++ join b'/' path.parts in if is_empty whole then text "." else whole
