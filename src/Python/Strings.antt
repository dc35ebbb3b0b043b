-- ===== src/Python/Strings.antt =====
-- `bytes.decode("utf-8")`, `str.strip` and the other methods of texts that the sources call.
pub mod Laws
pub mod Ascii
use mathlib.Core.List.{reverse}
use ttop_desk.Prelude.{
  ℕ, ◌+◌, ◌-◌, ◌*◌, Bool, true, false, ◌&&◌, ◌||◌, Option, none, some, List, [], ◌∷◌, ◌++◌, Text,
  ltb, leb, ◌==◌, if◌then◌else◌,
}

-- Between characters, or inside one: how many bytes are left, the range of the next, the bits so far.
pub data Utf8 : Type 0 where
  ready : Utf8
  inside : ℕ → ℕ → ℕ → ℕ → Utf8

-- One byte of well-formed UTF-8: no overlong form, no surrogate, nothing above U+10FFFF.
utf8_step : Utf8 → ℕ → Option (Text × Utf8)
utf8_step ready b =
    if ltb b 128
    then some (b ∷ [], ready)
    else if leb 194 b && leb b 223
    then some ([], inside 1 128 191 (b - 192))
    else if b == 224
    then some ([], inside 2 160 191 0)
    else if b == 237
    then some ([], inside 2 128 159 13)
    else if leb 225 b && leb b 239
    then some ([], inside 2 128 191 (b - 224))
    else if b == 240
    then some ([], inside 3 144 191 0)
    else if leb 241 b && leb b 243
    then some ([], inside 3 128 191 (b - 240))
    else if b == 244
    then some ([], inside 3 128 143 4)
    else none
utf8_step (inside left lo hi bits) b =
    if leb lo b && leb b hi
    then if left == 1
      then some ((bits * 64 + (b - 128)) ∷ [], ready)
      else some ([], inside (left - 1) 128 191 (bits * 64 + (b - 128)))
    else none

utf8_from : Utf8 → List ℕ → Option Text
unfolding utf8_step
utf8_from ready [] = some []
utf8_from (inside _ _ _ _) [] = none
utf8_from s (b ∷ bs) = elim (utf8_step s b) [
  | none ↦ none
  | some (out, s') ↦ elim (utf8_from s' bs) [ none ↦ none | some rest ↦ some (out ++ rest) ]
]

-- `none` is a UnicodeDecodeError.
unfoldable pub decode_utf8 : List ℕ → Option Text
unfolding utf8_from
decode_utf8 = utf8_from ready

-- A byte that does not fit gives U+FFFD for what it breaks off, and begins anew.
restart : Utf8 → Option (Text × Utf8) → Text × Utf8
restart ready begun = (65533 ∷ [], ready)
restart (inside _ _ _ _) none = (65533 ∷ 65533 ∷ [], ready)
restart (inside _ _ _ _) (some (out, s')) = (65533 ∷ out, s')

replace_step : Utf8 → ℕ → Text × Utf8
unfolding utf8_step restart
replace_step s b = elim (utf8_step s b) [ none ↦ restart s (utf8_step ready b) | some r ↦ r ]

replace_from : Utf8 → List ℕ → Text
unfolding replace_step
replace_from ready [] = []
replace_from (inside _ _ _ _) [] = 65533 ∷ []
replace_from s (b ∷ bs) = let (out, s') = replace_step s b in out ++ replace_from s' bs

-- `bytes.decode("utf-8", errors="replace")`
unfoldable pub decode_utf8_replace : List ℕ → Text
unfolding replace_from
decode_utf8_replace = replace_from ready

-- `str.isspace` of one character
unfoldable pub is_whitespace : ℕ → Bool
is_whitespace c =
    leb 9 c && leb c 13
    || leb 28 c && leb c 32
    || c == 133
    || c == 160
    || c == 5760
    || leb 8192 c && leb c 8202
    || c == 8232
    || c == 8233
    || c == 8239
    || c == 8287
    || c == 12288

unfoldable pub strip_left : Text → Text
unfolding is_whitespace
strip_left [] = []
strip_left (c ∷ cs) = let rest = strip_left cs in if is_whitespace c then rest else c ∷ cs

unfoldable pub strip : Text → Text
unfolding strip_left
strip s = reverse (strip_left (reverse (strip_left s)))

-- `s.replace(a, b)` for single characters
unfoldable pub replace_char : ℕ → ℕ → Text → Text
replace_char a b [] = []
replace_char a b (c ∷ cs) = (if c == a then b else c) ∷ replace_char a b cs

-- `posixpath.basename(s)`: what follows the last slash
basename_from : Text → Text → Text
basename_from tail [] = tail
basename_from tail (c ∷ cs) = basename_from (if c == b'/' then [] else tail ++ c ∷ []) cs

unfoldable pub basename : Text → Text
unfolding basename_from
basename = basename_from []

abbrev pub is_empty : Text → Bool
is_empty [] = true
is_empty (_ ∷ _) = false
