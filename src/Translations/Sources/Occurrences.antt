-- ===== src/Translations/Sources/Occurrences.antt =====
-- What `SOURCE_PATTERN.finditer` has to find, and that the search finds it.
use mathlib.Core.List.{append_assoc}
use ttop_desk.Prelude.{
  ℕ, zero, suc, ◌≤◌, List, ◌⊎◌, ◌-◌, ◌≡◌, refl, ap, sym, length-append, ◌∙◌, Bool, true, false, not,
  ◌&&◌, none, some, [], ◌∷◌, ◌++◌, Text, text, starts_with, length, ◌==◌, ==_iff, All, arith,
  Bool-cases, Option-cases, inl, inr,
}
use ttop_desk.Python.Strings.{is_whitespace, strip_left}
use ttop_desk.Release.Validation.{drop}
use ttop_desk.Translations.Sources.{
  Matched, longer, match_string, match_call, is_word, find_calls, find_sources,
}

-- `(?:[^"\\]|\\.)*`
pub data IsBody : Text → Type 0 where
  body_end : IsBody []
  body_char :
      (c : ℕ) (t : Text) → (c == b'"') ≡ false → (c == b'\\') ≡ false → IsBody t → IsBody (c ∷ t)
  body_escape : (c : ℕ) (t : Text) → (c == 10) ≡ false → IsBody t → IsBody (b'\\' ∷ c ∷ t)

-- The text starts with a call of `ttopTr` with this literal, and goes on with `rest`.
pub record IsCall (s group rest : Text) : Type 0 where
  pub space : Text
  pub is_space : All (λ c. is_whitespace c ≡ true) space
  pub is_body : IsBody group
  pub is_call : s ≡ text "ttopTr(" ++ (space ++ b'"' ∷ (group ++ b'"' ∷ rest))

-- The matches from left to right, none of them within another: behind a word's character, or where
-- no call starts, the search goes on by one character; where a call starts, behind it.
pub data Finds (is_alphanumeric : ℕ → Bool) : Bool → Text → List Text → Type 0 where
  at_end : (after_word : Bool) → Finds is_alphanumeric after_word [] []
  passed :
      (after_word : Bool) (c : ℕ) (s : Text) (groups : List Text)
      → (after_word ≡ true) ⊎ ((group rest : Text) → ¬ IsCall (c ∷ s) group rest)
      → Finds is_alphanumeric (is_word is_alphanumeric c) s groups
      → Finds is_alphanumeric after_word (c ∷ s) groups
  found :
      (s group rest : Text) (groups : List Text)
      → IsCall s group rest
      → Finds is_alphanumeric (is_word is_alphanumeric b'"') rest groups
      → Finds is_alphanumeric false s (group ∷ groups)

longer-some :
    (c : ℕ) (m : Matched) (group rest : Text)
    → longer (c ∷ []) m ≡ some (group, rest)
    → (inner : Text) × (m ≡ some (inner, rest)) × (group ≡ c ∷ inner)
unfolding longer
longer-some c none group rest h = cc
longer-some c (some (inner, r)) group rest h = (inner, ground arith, ground arith)

one_more :
    (c : ℕ) (cs group rest : Text) (m : Matched)
    → ((inner r : Text) → m ≡ some (inner, r) → cs ≡ inner ++ b'"' ∷ r)
    → longer (c ∷ []) m ≡ some (group, rest)
    → c ∷ cs ≡ group ++ b'"' ∷ rest
one_more c cs group rest m ih k =
    let (inner, matched, e) = longer-some c m group rest k in
    rw e (ap (◌∷◌ c) (ih inner rest matched))

match_string-eq :
    (escaped : Bool) (s group rest : Text)
    → match_string escaped s ≡ some (group, rest)
    → s ≡ group ++ b'"' ∷ rest
unfolding match_string
match_string-eq escaped [] group rest h = cc
match_string-eq escaped (c ∷ cs) group rest h = elim (Bool-cases escaped) [
  | inl e ↦ elim (Bool-cases (c == 10)) [
    | inl f ↦ absurd (ground arith)
    | inr f ↦
        one_more c cs group rest _ (match_string-eq (not escaped && c == b'\\') cs) (ground arith)
  ]
  | inr e ↦ elim (Bool-cases (c == b'"')) [
    | inl f ↦
        let quote : c ≡ b'"' = (==_iff c b'"').0 f in
        let closing : group ≡ [] = ground arith in
        let after : cs ≡ rest = ground arith in rw (quote, closing, after) refl
    | inr f ↦
        one_more c cs group rest _ (match_string-eq (not escaped && c == b'\\') cs) (ground arith)
  ]
]

drop-starts : (front s : Text) → starts_with front s ≡ true → s ≡ front ++ drop (length front) s
unfolding starts_with drop
drop-starts [] s h = refl
drop-starts (x ∷ front) [] h = cc
drop-starts (x ∷ front) (y ∷ s) h = ground (arith, drop-starts front s)

strip_left-eq :
    (s : Text)
    → (space : Text) × (All (λ c. is_whitespace c ≡ true) space) × (s ≡ space ++ strip_left s)
unfolding strip_left
strip_left-eq [] = ([], tt, refl)
strip_left-eq (c ∷ cs) = elim (Bool-cases (is_whitespace c)) [
  | inl e ↦
      let (space, white, same) = strip_left-eq cs in (c ∷ space, (e, white), rw e (ap (◌∷◌ c) same))
  | inr e ↦ ([], tt, rw e refl)
]

-- After a backslash, the group is what follows it.
abbrev IsBodyAfter : Bool → Text → Type 0
IsBodyAfter false group = IsBody group
IsBodyAfter true group = IsBody (b'\\' ∷ group)

match_string-IsBody :
    (after : Bool) (s group rest : Text)
    → match_string after s ≡ some (group, rest)
    → IsBodyAfter after group
unfolding match_string
match_string-IsBody after [] group rest h = cc
match_string-IsBody true (c ∷ cs) group rest h = elim (Bool-cases (c == 10)) [
  | inl e ↦ absurd (ground arith)
  | inr e ↦
      let (inner, matched, same) =
        longer-some c (match_string false cs) group rest (ground arith) in
      rw same (body_escape c inner e (match_string-IsBody false cs inner rest matched))
]
match_string-IsBody false (c ∷ cs) group rest h = elim (Bool-cases (c == b'"')) [
  | inl e ↦ let closing : group ≡ [] = ground arith in rw closing body_end
  | inr e ↦ elim (Bool-cases (c == b'\\')) [
    | inl f ↦
        let (inner, matched, same) =
          longer-some c (match_string true cs) group rest (ground arith) in
        rw (same, (==_iff c b'\\').0 f) (match_string-IsBody true cs inner rest matched)
    | inr f ↦
        let (inner, matched, same) =
          longer-some c (match_string false cs) group rest (ground arith) in
        rw same (body_char c inner e f (match_string-IsBody false cs inner rest matched))
  ]
]

match_string-of_IsBody :
    (group rest : Text)
    → IsBody group
    → match_string false (group ++ b'"' ∷ rest) ≡ some (group, rest)
unfolding match_string longer
match_string-of_IsBody _ rest body_end = refl
match_string-of_IsBody _ rest (body_char c t e f b) =
    rw (e, f, match_string-of_IsBody t rest b) refl
match_string-of_IsBody _ rest (body_escape c t e b) = rw (e, match_string-of_IsBody t rest b) refl

strip_left-space :
    (space s : Text)
    → All (λ c. is_whitespace c ≡ true) space
    → strip_left (space ++ b'"' ∷ s) ≡ b'"' ∷ s
unfolding strip_left is_whitespace
strip_left-space [] s h = refl
strip_left-space (c ∷ space) s (h, hs) = rw (h, strip_left-space space s hs) refl

match_call-IsCall : (s group rest : Text) → match_call s ≡ some (group, rest) → IsCall s group rest
unfolding match_call
match_call-IsCall s group rest h =
    let after = strip_left (drop 7 s) in
    let called : starts_with (text "ttopTr(") s ≡ true = ground arith in
    let opened : starts_with (text "\"") after ≡ true = ground arith in
    let literal : match_string false (drop 1 after) ≡ some (group, rest) = ground arith in
    let (space, white, same) = strip_left-eq (drop 7 s) in
    record {
      space = space;
      is_space = white;
      is_body = match_string-IsBody false (drop 1 after) group rest literal;
      is_call =
          drop-starts (text "ttopTr(") s called
          ∙ ap (λ t. text "ttopTr(" ++ t)
              (same
                ∙ ap (λ t. space ++ t)
                    (drop-starts (text "\"") after opened
                      ∙ ap (◌∷◌ b'"') (match_string-eq false (drop 1 after) group rest literal)));
    }

match_call-of_IsCall :
    (s group rest : Text) → IsCall s group rest → match_call s ≡ some (group, rest)
unfolding match_call starts_with drop
match_call-of_IsCall s group rest k =
    rw (k.is_call, strip_left-space k.space (group ++ b'"' ∷ rest) k.is_space)
      (match_string-of_IsBody group rest k.is_body)

none-some : {m : Text × Text} → ¬ (◌≡◌ {A = Matched} none (some m))
none-some h = cc

tail_eq : {c d : ℕ} {s t : Text} → ◌≡◌ {A = Text} (c ∷ s) (d ∷ t) → s ≡ t
tail_eq h = cc

-- A call up to its closing quote.
IsCall-front :
    (c : ℕ) (cs group rest : Text)
    → IsCall (c ∷ cs) group rest
    → (front : Text) × (cs ≡ front ++ b'"' ∷ rest)
IsCall-front c cs group rest k = (
  text "topTr(" ++ (k.space ++ b'"' ∷ group),
  tail_eq k.is_call
      ∙ ap (λ t. text "topTr(" ++ t) (sym (append_assoc k.space (b'"' ∷ group) (b'"' ∷ rest))),
)

module _ (is_alphanumeric : ℕ → Bool) where
  -- Skipping what ends in a quote.
  find_calls-skip :
      (w : Bool) (front rest : Text)
      → find_calls is_alphanumeric w (suc (length front)) (front ++ b'"' ∷ rest)
        ≡ find_calls is_alphanumeric (is_word is_alphanumeric b'"') 0 rest
  unfolding find_calls
  find_calls-skip w [] rest = refl
  find_calls-skip w (c ∷ front) rest = find_calls-skip (is_word is_alphanumeric c) front rest

  find_calls-Finds :
      (n : ℕ) (w : Bool) (s : Text)
      → length s ≤ n
      → Finds is_alphanumeric w s (find_calls is_alphanumeric w 0 s)
  unfolding find_calls
  find_calls-Finds n w [] h = at_end w
  find_calls-Finds zero w (c ∷ cs) h = absurd (omega arith)
  find_calls-Finds (suc n) true (c ∷ cs) h =
      passed true c cs _ (inl refl)
        (find_calls-Finds n (is_word is_alphanumeric c) cs (omega arith))
  find_calls-Finds (suc n) false (c ∷ cs) h = elim (Option-cases (match_call (c ∷ cs))) [
    | inl e ↦
        rw (e, find_calls)
          (passed false c cs _
            (inr (λ group rest k. none-some (sym e ∙ match_call-of_IsCall (c ∷ cs) group rest k)))
            (find_calls-Finds n (is_word is_alphanumeric c) cs (omega arith)))
    | inr ((group, rest), e) ↦
        let k = match_call-IsCall (c ∷ cs) group rest e in
        let (front, same) = IsCall-front c cs group rest k in
        let few : length cs - length rest ≡ suc (length front) =
          omega (arith, ap length same, length-append front (b'"' ∷ rest)) in
        let on : find_calls is_alphanumeric (is_word is_alphanumeric c) (length cs - length rest) cs
            ≡ find_calls is_alphanumeric (is_word is_alphanumeric b'"') 0 rest =
          ap (λ j. find_calls is_alphanumeric (is_word is_alphanumeric c) j cs) few
          ∙ ap (find_calls is_alphanumeric (is_word is_alphanumeric c) (suc (length front))) same
          ∙ find_calls-skip (is_word is_alphanumeric c) front rest in
        rw (e, find_calls, on)
          (found (c ∷ cs) group rest _ k (
            find_calls-Finds n (is_word is_alphanumeric b'"') rest
              (omega (arith, ap length same, length-append front (b'"' ∷ rest)))))
  ]

  -- The search for sources finds exactly the literals of the calls of `ttopTr`, from left to
  -- right: the next call is the leftmost one that does not stand behind a character of a word, and
  -- the search goes on behind its literal.
  pub find_sources-Finds :
      (content : Text) → Finds is_alphanumeric false content (find_sources is_alphanumeric content)
  unfolding find_sources
  find_sources-Finds content = find_calls-Finds (length content) false content (omega arith)
