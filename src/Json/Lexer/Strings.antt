-- ===== src/Json/Lexer/Strings.antt =====
-- The scanner reads back the strings that `json.dumps` writes.
use mathlib.Core.List.{reverse, reverse-cons, append_assoc, append-nil}
use ttop_desk.Prelude.{
  ℕ, ◌+◌, ◌-◌, ◌*◌, ◌/◌, ◌%◌, ◌<◌, ◌≤◌, ◌≡◌, ◌⊎◌, inl, inr, refl, ap, sym, ◌∙◌, none, some, List,
  [], ◌∷◌, ◌++◌, Text, All, arith, Option-cases, ◌==◌, leb, ltb, ◌&&◌, if◌then◌else◌, Bool-cases,
  false,
}
use ttop_desk.Json.Encode.{
  hex_digit, unicode_escape, short_escape, escape_as, escape, escape_all, quote,
}
use ttop_desk.Json.Lexer.{
  Token, string, Mode, between, in_string, in_escape, in_unicode, hex_value, unescape, push_unit,
  advance, lex_from, lex,
}

-- A Unicode scalar value: a code point that is no surrogate.
abbrev pub IsScalar : ℕ → Type 0
IsScalar c = (c < 55296) ⊎ ((57343 < c) × (c < 1114112))

hex_value-hex_digit : (d : ℕ) → d < 16 → hex_value (hex_digit d) ≡ some d
unfolding hex_value
hex_value-hex_digit d h = ground arith

hex_parts :
    (v : ℕ)
    → v < 65536
    → (((0 * 16 + v / 4096 % 16) * 16 + v / 256 % 16) * 16 + v / 16 % 16) * 16 + v % 16 ≡ v
hex_parts v h = omega arith

pair_parts :
    (c : ℕ)
    → 65535 < c
    → c < 1114112
    → 65536 + (55296 + (c - 65536) / 1024 % 1024 - 55296) * 1024 + (56320 + c % 1024 - 56320) ≡ c
pair_parts c h k = omega arith

pub lex_step :
    (m m' : Mode) (c : ℕ) (ts : List Token) (cs : Text)
    → advance m c ≡ (ts, m')
    → lex_from m (c ∷ cs) ≡ ts ++ lex_from m' cs
unfolding lex_from
lex_step m m' c ts cs e = rw e refl

unicode_digit :
    (s : Text) (k v d : ℕ)
    → d < 16
    → advance (in_unicode s k v) (hex_digit d) ≡ (
        if k == 0
        then ([], in_string (push_unit (v * 16 + d) s))
        else ([], in_unicode s (k - 1) (v * 16 + d)))
unfolding advance
unicode_digit s k v d h = rw (hex_value-hex_digit d h, advance) refl

lex_from-unicode_escape :
    (s rest : Text) (v : ℕ)
    → v < 65536
    → lex_from (in_string s) (unicode_escape v ++ rest) ≡ lex_from (in_string (push_unit v s)) rest
unfolding unicode_escape advance
lex_from-unicode_escape s rest v h =
    lex_step _ _ _ _ _ refl
    ∙ lex_step _ _ _ _ _ refl
    ∙ lex_step _ _ _ _ _ (unicode_digit s 3 0 (v / 4096 % 16) (omega arith))
    ∙ lex_step _ _ _ _ _ (unicode_digit s 2 _ (v / 256 % 16) (omega arith))
    ∙ lex_step _ _ _ _ _ (unicode_digit s 1 _ (v / 16 % 16) (omega arith))
    ∙ lex_step _ _ _ _ _ (unicode_digit s 0 _ (v % 16) (omega arith))
    ∙ ap (λ u. lex_from (in_string (push_unit u s)) rest) (hex_parts v h)

short_escape-unescape :
    (c letter : ℕ)
    → short_escape c ≡ some letter
    → (unescape letter ≡ some c) × ((letter == b'u') ≡ false)
unfolding short_escape unescape
short_escape-unescape c letter h = ground arith

-- A code point that is no low surrogate joins nothing.
push_unit-scalar : (v : ℕ) (s : Text) → (v < 56320) ⊎ (57343 < v) → push_unit v s ≡ v ∷ s
unfolding push_unit
push_unit-scalar v [] h = refl
push_unit-scalar v (x ∷ s) h = elim h [ inl l ↦ ground arith | inr l ↦ ground arith ]

push_unit-pair :
    (c : ℕ) (s : Text)
    → 65535 < c
    → c < 1114112
    → push_unit (56320 + c % 1024) ((55296 + (c - 65536) / 1024 % 1024) ∷ s) ≡ c ∷ s
unfolding push_unit
push_unit-pair c s h k =
    let high : (c - 65536) / 1024 % 1024 < 1024 = omega arith in
    let low : c % 1024 < 1024 = omega arith in let p = pair_parts c h k in ground arith

lex_from-letter :
    (s rest : Text) (c letter : ℕ)
    → short_escape c ≡ some letter
    → lex_from (in_string s) (92 ∷ letter ∷ rest) ≡ lex_from (in_string (c ∷ s)) rest
unfolding advance
lex_from-letter s rest c letter h =
    let (e, plain) = short_escape-unescape c letter h in
    lex_step _ _ _ _ _ refl
    ∙ lex_step (in_escape s) (in_string (c ∷ s)) letter [] rest (rw (plain, e) refl)

lex_from-plain :
    (s rest : Text) (c : ℕ)
    → short_escape c ≡ none
    → 32 ≤ c
    → lex_from (in_string s) (c ∷ rest) ≡ lex_from (in_string (c ∷ s)) rest
unfolding advance short_escape
lex_from-plain s rest c h k = lex_step (in_string s) (in_string (c ∷ s)) c [] rest (ground arith)

lex_from-unit :
    (s rest : Text) (v : ℕ)
    → v < 65536
    → (v < 56320) ⊎ (57343 < v)
    → lex_from (in_string s) (unicode_escape v ++ rest) ≡ lex_from (in_string (v ∷ s)) rest
lex_from-unit s rest v h k =
    lex_from-unicode_escape s rest v h
    ∙ ap (λ u. lex_from (in_string u) rest) (push_unit-scalar v s k)

lex_from-pair :
    (s rest : Text) (c : ℕ)
    → 65535 < c
    → c < 1114112
    → lex_from (in_string s) (
        unicode_escape (55296 + (c - 65536) / 1024 % 1024)
        ++ (unicode_escape (56320 + c % 1024) ++ rest))
      ≡ lex_from (in_string (c ∷ s)) rest
lex_from-pair s rest c h k =
    lex_from-unit s _ _ (omega arith) (inl (omega arith))
    ∙ lex_from-unicode_escape _ rest _ (omega arith)
    ∙ ap (λ u. lex_from (in_string u) rest) (push_unit-pair c s h k)

lex_from-unescaped :
    (s rest : Text) (c : ℕ)
    → IsScalar c
    → short_escape c ≡ none
    → lex_from (in_string s) (escape_as none c ++ rest) ≡ lex_from (in_string (c ∷ s)) rest
unfolding escape_as unicode_escape
lex_from-unescaped s rest c h e = elim (Bool-cases (leb 32 c && leb c 126)) [
  | inl p ↦ rw p (lex_from-plain s rest c e (ground arith))
  | inr p ↦ elim (Bool-cases (ltb c 65536)) [
    | inl q ↦
        rw (p, q)
          (lex_from-unit s rest c (ground arith)
            (elim h [ inl l ↦ inl (omega arith) | inr (l, _) ↦ inr l ]))
    | inr q ↦ rw (p, q) (lex_from-pair s rest c (ground arith) (ground arith))
  ]
]

lex_from-escape :
    (s rest : Text) (c : ℕ)
    → IsScalar c
    → lex_from (in_string s) (escape c ++ rest) ≡ lex_from (in_string (c ∷ s)) rest
unfolding escape escape_as
lex_from-escape s rest c h = elim (Option-cases (short_escape c)) [
  | inr (letter, e) ↦ rw e (lex_from-letter s rest c letter e)
  | inl e ↦ rw e (lex_from-unescaped s rest c h e)
]

lex_from-escape_all :
    (s t rest : Text)
    → All IsScalar t
    → lex_from (in_string s) (escape_all t ++ 34 ∷ rest)
      ≡ string (reverse s ++ t) ∷ lex_from between rest
unfolding escape_all
lex_from-escape_all s [] rest h =
    lex_step (in_string s) between 34 (string (reverse s) ∷ []) rest (unfold advance in refl)
    ∙ ap (λ u. string u ∷ lex_from between rest) (sym (append-nil (reverse s)))
lex_from-escape_all s (c ∷ t) rest (h, hs) =
    ap (lex_from (in_string s)) (append_assoc (escape c) (escape_all t) (34 ∷ rest))
    ∙ lex_from-escape s (escape_all t ++ 34 ∷ rest) c h
    ∙ lex_from-escape_all (c ∷ s) t rest hs
    ∙ ap (λ u. string u ∷ lex_from between rest)
        (ap (λ u. u ++ t) (reverse-cons c s) ∙ append_assoc (reverse s) (c ∷ []) t)

-- The text of a string is read as one token, whatever follows.
pub lex-quote : (t rest : Text) → All IsScalar t → lex (quote t ++ rest) ≡ string t ∷ lex rest
unfolding quote lex
lex-quote t rest h =
    lex_step between (in_string []) 34 [] ((escape_all t ++ 34 ∷ []) ++ rest)
      (unfold advance in refl)
    ∙ ap (lex_from (in_string [])) (append_assoc (escape_all t) (34 ∷ []) rest)
    ∙ lex_from-escape_all [] t rest h
