-- ===== src/Json/Lexer/Words.antt =====
-- Tokens outside strings: marks, and runs of other characters.
use mathlib.Core.List.{reverse, reverse-cons, append_assoc, append-nil}
use ttop_desk.Prelude.{
  ℕ, ◌≡◌, refl, ap, sym, ◌∙◌, none, some, List, [], ◌∷◌, ◌++◌, Text, All, ◌==◌, false,
}
use ttop_desk.Json.Lexer.{
  Token, word, Mode, between, in_word, is_space, mark, outside, advance, lex_from, lex,
}
use ttop_desk.Json.Lexer.Strings.{lex_step}

-- A character of a number or a name.
abbrev pub IsWordChar : ℕ → Type 0
IsWordChar c = (is_space c ≡ false) × ((c == 34) ≡ false) × (mark c ≡ none)

-- The text ends, or goes on with a mark.
abbrev pub IsDelimited : Text → Type 0
IsDelimited [] = Unit
IsDelimited (c ∷ _) = (t : Token) × ((c == 34) ≡ false) × (is_space c ≡ false) × (mark c ≡ some t)

outside-word :
    (pending : List Token) (more : Mode) (c : ℕ)
    → IsWordChar c
    → outside pending more c ≡ ([], more)
unfolding outside
outside-word pending more c (a, b, d) = rw (a, b, d) refl

outside-mark :
    (pending : List Token) (more : Mode) (c : ℕ) (t : Token)
    → (c == 34) ≡ false
    → is_space c ≡ false
    → mark c ≡ some t
    → outside pending more c ≡ (pending ++ t ∷ [], between)
unfolding outside
outside-mark pending more c t a b d = rw (b, a, d) refl

lex_from-word :
    (w v rest : Text)
    → All IsWordChar v
    → IsDelimited rest
    → lex_from (in_word w) (v ++ rest) ≡ word (reverse w ++ v) ∷ lex_from between rest
unfolding advance lex_from
lex_from-word w [] [] h d = ap (λ u. word u ∷ []) (sym (append-nil (reverse w)))
lex_from-word w [] (c ∷ rest) h (t, a, b, e) =
    lex_step (in_word w) between c (word (reverse w) ∷ t ∷ []) rest (outside-mark _ _ c t a b e)
    ∙ ap (λ u. word (reverse w) ∷ u)
        (sym (lex_step between between c (t ∷ []) rest (outside-mark _ _ c t a b e)))
    ∙ ap (λ u. word u ∷ lex_from between (c ∷ rest)) (sym (append-nil (reverse w)))
lex_from-word w (c ∷ v) rest (h, hs) d =
    lex_step (in_word w) (in_word (c ∷ w)) c [] (v ++ rest) (outside-word _ _ c h)
    ∙ lex_from-word (c ∷ w) v rest hs d
    ∙ ap (λ u. word u ∷ lex_from between rest)
        (ap (λ u. u ++ v) (reverse-cons c w) ∙ append_assoc (reverse w) (c ∷ []) v)

-- A run of such characters before a mark is one token.
pub lex-word :
    (c : ℕ) (v rest : Text)
    → All IsWordChar (c ∷ v)
    → IsDelimited rest
    → lex ((c ∷ v) ++ rest) ≡ word (c ∷ v) ∷ lex rest
unfolding lex advance
lex-word c v rest (h, hs) d =
    lex_step between (in_word (c ∷ [])) c [] (v ++ rest) (outside-word [] (in_word (c ∷ [])) c h)
    ∙ lex_from-word (c ∷ []) v rest hs d

-- A mark is one token.
pub lex-mark :
    (c : ℕ) (t : Token) (rest : Text)
    → (c == 34) ≡ false
    → is_space c ≡ false
    → mark c ≡ some t
    → lex (c ∷ rest) ≡ t ∷ lex rest
unfolding lex advance
lex-mark c t rest a b d =
    lex_step between between c (t ∷ []) rest (outside-mark [] (in_word (c ∷ [])) c t a b d)
