-- ===== src/Json/Lexer.antt =====
-- The tokens of a JSON text, read character by character as the scanner of `json.loads` does.
pub mod Strings
pub mod Words
use mathlib.Core.List.{reverse}
use ttop_desk.Prelude.{
  ℕ, ◌+◌, ◌-◌, ◌*◌, Bool, ◌&&◌, ◌||◌, Option, none, some, List, [], ◌∷◌, ◌++◌, Text, ltb, leb, ◌==◌,
  if◌then◌else◌,
}

-- `word` is a run of other characters: a number or a name. Two scalars never stand side by side
-- in JSON, so a run is valid as a whole or the text is not. `bad` ends a text that is no JSON.
pub data Token : Type 0 where
  open_object close_object open_array close_array comma colon bad : Token
  string word : Text → Token

-- What has been read of the token at hand, last character first.
pub data Mode : Type 0 where
  between failed : Mode
  in_word in_string in_escape : Text → Mode
  in_unicode : Text → ℕ → ℕ → Mode

unfoldable pub is_space : ℕ → Bool
is_space c = c == 32 || c == 9 || c == 10 || c == 13

-- The token of a punctuation mark.
unfoldable pub mark : ℕ → Option Token
mark c =
    if c == b'{'
    then some open_object
    else if c == b'}'
    then some close_object
    else if c == b'['
    then some open_array
    else if c == b']'
    then some close_array
    else if c == b','
    then some comma
    else if c == b':'
    then some colon
    else none

hex_value : ℕ → Option ℕ
hex_value c =
    if leb 48 c && leb c 57
    then some (c - 48)
    else if leb b'a' c && leb c b'f'
    then some (c - 87)
    else if leb b'A' c && leb c b'F'
    then some (c - 55)
    else none

-- `\n` and the like; `none` is no escape.
unescape : ℕ → Option ℕ
unescape c =
    if c == 34 || c == 92 || c == 47
    then some c
    else if c == b'b'
    then some 8
    else if c == b'f'
    then some 12
    else if c == b'n'
    then some 10
    else if c == b'r'
    then some 13
    else if c == b't'
    then some 9
    else none

-- A low surrogate joins the high surrogate before it.
push_unit : ℕ → Text → Text
push_unit v (h ∷ s) =
    if leb 55296 h && ltb h 56320 && leb 56320 v && ltb v 57344
    then (65536 + (h - 55296) * 1024 + (v - 56320)) ∷ s
    else v ∷ h ∷ s
push_unit v [] = v ∷ []

-- Outside strings: `pending` is what the character ends.
outside : List Token → Mode → ℕ → List Token × Mode
unfolding is_space mark
outside pending more c =
    if is_space c
    then (pending, between)
    else if c == 34
    then (pending, in_string [])
    else elim (mark c) [ some t ↦ (pending ++ t ∷ [], between) | none ↦ ([], more) ]

pub advance : Mode → ℕ → List Token × Mode
unfolding outside hex_value unescape push_unit
advance between c = outside [] (in_word (c ∷ [])) c
advance failed c = ([], failed)
advance (in_word w) c = outside (word (reverse w) ∷ []) (in_word (c ∷ w)) c
advance (in_string s) c =
    if c == 34
    then (string (reverse s) ∷ [], between)
    else if c == 92
    then ([], in_escape s)
    else if ltb c 32
    then (bad ∷ [], failed)
    else ([], in_string (c ∷ s))
advance (in_escape s) c =
    if c == b'u'
    then ([], in_unicode s 3 0)
    else elim (unescape c) [ none ↦ (bad ∷ [], failed) | some x ↦ ([], in_string (x ∷ s)) ]
advance (in_unicode s k v) c = elim (hex_value c) [
  | none ↦ (bad ∷ [], failed)
  | some d ↦
      if k == 0
      then ([], in_string (push_unit (v * 16 + d) s))
      else ([], in_unicode s (k - 1) (v * 16 + d))
]

-- What the end of the text leaves.
finish : Mode → List Token
finish between = []
finish failed = []
finish (in_word w) = word (reverse w) ∷ []
finish (in_string s) = bad ∷ []
finish (in_escape s) = bad ∷ []
finish (in_unicode s k v) = bad ∷ []

pub lex_from : Mode → Text → List Token
unfolding advance finish
lex_from m [] = finish m
lex_from m (c ∷ cs) = let (ts, m') = advance m c in ts ++ lex_from m' cs

unfoldable pub lex : Text → List Token
unfolding lex_from
lex = lex_from between
