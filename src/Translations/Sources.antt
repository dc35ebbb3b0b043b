-- ===== src/Translations/Sources.antt =====
-- scripts/check-translations.py: `SOURCE_PATTERN.finditer`, and the set of texts of all sources.
-- `is_alphanumeric` is `str.isalnum` of one character.
pub mod Occurrences
use ttop_desk.Prelude.{
  ℕ, zero, suc, ◌+◌, ◌-◌, Bool, true, false, not, ◌&&◌, ◌||◌, Option, none, some, List, [], ◌∷◌,
  ◌++◌, Text, text, starts_with, member_text, length, ◌==◌, if◌then◌else◌,
}
use ttop_desk.Python.Exceptions.{Result, ok, ◌>>=◌}
use ttop_desk.Python.Strings.{strip_left}
use ttop_desk.Release.Validation.{drop}

-- What the group matches, and what is left after the closing quote.
abbrev pub Matched : Type 0
Matched = Option (Text × Text)

-- One more character of the group.
unfoldable pub longer : Text → Matched → Matched
longer front none = none
longer front (some (group, rest)) = some (front ++ group, rest)

-- `((?:[^"\\]|\\.)*)"` at the start of a text, after a backslash or not
unfoldable pub match_string : Bool → Text → Matched
match_string escaped [] = none
match_string escaped (c ∷ cs) =
    let rest = longer (c ∷ []) (match_string (not escaped && c == b'\\') cs) in
    if escaped then (if c == 10 then none else rest) else if c == b'"' then some ([], cs) else rest

-- `ttopTr\(\s*"...` at the start of a text
unfoldable pub match_call : Text → Matched
match_call s =
    let after = strip_left (drop 7 s) in
    if starts_with (text "ttopTr(") s && starts_with (text "\"") after
    then match_string false (drop 1 after)
    else none

-- The groups of the matches, from a place with a word's character before it or not. `skip`
-- characters belong to the last match.
module _ (is_alphanumeric : ℕ → Bool) where
  abbrev pub is_word : ℕ → Bool
  is_word c = is_alphanumeric c || c == b'_'

  unfoldable pub find_calls : Bool → ℕ → Text → List Text
  find_calls after_word skip [] = []
  find_calls after_word (suc skip) (c ∷ cs) = find_calls (is_word c) skip cs
  find_calls after_word zero (c ∷ cs) = elim (if after_word then none else match_call (c ∷ cs)) [
    | none ↦ find_calls (is_word c) 0 cs
    | some found ↦ found.0 ∷ find_calls (is_word c) (length cs - length found.1) cs
  ]

  -- `SOURCE_PATTERN.finditer(text)`
  unfoldable pub find_sources : Text → List Text
  find_sources = find_calls false 0

-- `s.add(t)` of a set, in the order of insertion
unfoldable pub added : Text → List Text → List Text
added t set = if member_text t set then set else set ++ t ∷ []

module _ (literal_eval : Text → Result Text) (is_alphanumeric : ℕ → Bool) where
  add_groups : List Text → List Text → Result (List Text)
  add_groups set [] = ok set
  add_groups set (group ∷ groups) = do
    source ← literal_eval (text "\"" ++ group ++ text "\"")
    add_groups (added source set) groups

  -- The loop over the texts of the QML files.
  unfoldable pub collect_sources : List Text → List Text → Result (List Text)
  unfolding add_groups
  collect_sources set [] = ok set
  collect_sources set (content ∷ files) = do
    found ← add_groups set (find_sources is_alphanumeric content)
    collect_sources found files
