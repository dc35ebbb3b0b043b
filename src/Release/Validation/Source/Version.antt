-- ===== src/Release/Validation/Source/Version.antt =====
-- Which versions `read_version` accepts.
use ttop_desk.Prelude.{
  ℕ, ◌≡◌, ◌↔◌, refl, sym, ap, ◌∙◌, true, not, List, [], ◌∷◌, ◌++◌, Text, text, Lacks, arith, ap₂,
  Bool-cases, inl, inr, ==_iff, ◌==◌,
}
use ttop_desk.Python.Exceptions.{ok, assertion_error, raise_if-passed, >>=-eq-ok}
use ttop_desk.Python.Strings.{strip}
use ttop_desk.Release.Paths.{prepend, split_on, join}
use ttop_desk.Release.Paths.Laws.{split_on-append, split_on_single}
use ttop_desk.Release.Archives.Entries.{Files}
use ttop_desk.Release.Validation.{read_text, all_chars}
use ttop_desk.Release.Validation.Source.{
  is_digit, is_number, is_version, three_numbers, read_version,
}

-- Splitting gives at least one text, and loses nothing.
split_on-cases : (c : ℕ) (s : Text) → (t : Text) × (ts : List Text) × (split_on c s ≡ t ∷ ts)
unfolding split_on prepend
split_on-cases c [] = ([], [], refl)
split_on-cases c (x ∷ xs) =
    let (t, ts, e) = split_on-cases c xs in
    elim (Bool-cases (x == c)) [
      | inl same ↦ ([], split_on c xs, rw same refl)
      | inr other ↦ (x ∷ t, ts, rw (other, e) refl)
    ]

join-prepend : (c x : ℕ) (ts : List Text) → join c (prepend x ts) ≡ x ∷ join c ts
unfolding join prepend
join-prepend c x [] = refl
join-prepend c x (t ∷ []) = refl
join-prepend c x (t ∷ u ∷ ts) = refl

join-split_on : (c : ℕ) (s : Text) → join c (split_on c s) ≡ s
unfolding split_on join
join-split_on c [] = refl
join-split_on c (x ∷ xs) =
    let (t, ts, e) = split_on-cases c xs in
    let rest : join c (t ∷ ts) ≡ xs = ap (join c) (sym e) ∙ join-split_on c xs in
    elim (Bool-cases (x == c)) [
      | inl same ↦ rw (same, e) (ap₂ (λ y ys. y ∷ ys) (sym ((==_iff x c).0 same)) rest)
      | inr other ↦ rw (other, e) (join-prepend c x (t ∷ ts) ∙ ap (◌∷◌ x) rest)
    ]

-- Digits, at least one.
abbrev pub IsNumber : Text → Type 0
IsNumber t = is_number t ≡ true

digits-Lacks : (t : Text) → all_chars is_digit t ≡ true → Lacks b'.' t
unfolding all_chars is_digit
digits-Lacks [] h = tt
digits-Lacks (c ∷ cs) h = (ground arith, digits-Lacks cs (ground arith))

IsNumber-Lacks : (t : Text) → IsNumber t → Lacks b'.' t
unfolding is_number
IsNumber-Lacks t h = digits-Lacks t (ground arith)

-- Three numbers with dots between them.
abbrev pub IsVersion : Text → Type 0
IsVersion v =
    (major : Text) × (minor : Text) × (patch : Text) × IsNumber major
    × IsNumber minor
    × IsNumber patch
    × (v ≡ join b'.' (major ∷ minor ∷ patch ∷ []))

three_numbers-cases :
    (ts : List Text)
    → three_numbers ts ≡ true
    → (a : Text) × (b : Text) × (c : Text) × IsNumber a
      × IsNumber b
      × IsNumber c
      × (ts ≡ a ∷ b ∷ c ∷ [])
unfolding three_numbers
three_numbers-cases (a ∷ b ∷ c ∷ []) h = (a, b, c, ground arith, ground arith, ground arith, refl)
three_numbers-cases [] h = cc
three_numbers-cases (a ∷ []) h = cc
three_numbers-cases (a ∷ b ∷ []) h = cc
three_numbers-cases (a ∷ b ∷ c ∷ d ∷ ts) h = cc

is_version→IsVersion : (v : Text) → is_version v ≡ true → IsVersion v
unfolding is_version
is_version→IsVersion v h =
    let (a, b, c, na, nb, nc, e) = three_numbers-cases (split_on b'.' v) h in
    (a, b, c, na, nb, nc, sym (join-split_on b'.' v) ∙ ap (join b'.') e)

split_on-version :
    (a b c : Text)
    → IsNumber a
    → IsNumber b
    → IsNumber c
    → split_on b'.' (join b'.' (a ∷ b ∷ c ∷ [])) ≡ a ∷ b ∷ c ∷ []
unfolding join
split_on-version a b c na nb nc =
    split_on-append b'.' a (b ++ b'.' ∷ c) (IsNumber-Lacks a na)
    ∙ ap (◌∷◌ a) (
        split_on-append b'.' b c (IsNumber-Lacks b nb)
        ∙ ap (◌∷◌ b) (split_on_single b'.' c (IsNumber-Lacks c nc)))

IsVersion→is_version : (v : Text) → IsVersion v → is_version v ≡ true
unfolding is_version three_numbers
IsVersion→is_version v (a, b, c, na, nb, nc, e) =
    rw (e, split_on-version a b c na nb nc, na, nb, nc) refl

-- `read_version` returns exactly the text of VERSION without white space around it, and only where
-- that is three numbers with dots between them.
pub read_version_iff :
    (root : Files) (v : Text)
    → (read_version root ≡ ok v) ↔ (
        (content : Text) × (read_text root (text "VERSION") ≡ ok content)
        × (strip content ≡ v)
        × IsVersion v)
unfolding read_version
read_version_iff root v = (
  λ h.
      let (content, read, h₁) = >>=-eq-ok (read_text root (text "VERSION")) _ h in
      let (numbers, last) =
        raise_if-passed (not (is_version (strip content))) assertion_error _ h₁ in
      let same : strip content ≡ v = ground arith in
      (content, read, same, is_version→IsVersion v (rw (← same) (ground arith))),
  λ (content, read, same, version). rw (read, same, IsVersion→is_version v version) refl,
)
