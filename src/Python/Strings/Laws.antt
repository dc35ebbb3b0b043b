-- ===== src/Python/Strings/Laws.antt =====
-- What `replace` and `basename` leave of a text.
use mathlib.Core.Path.{subst, sym}
use mathlib.Core.List.{reverse, reverse-cons}
use ttop_desk.Prelude.{
  ap, Option, none, some, Option-cases, suc, ℕ, ◌+◌, ◌≤◌, ◌≡◌, ◌≢◌, refl, List, [], ◌∷◌, ◌++◌, Text,
  Lacks, ◌==◌, All, All-append, length, length-append, arith, Bool-cases, inl, inr,
}
use ttop_desk.Python.Strings.{
  Utf8, ready, inside, utf8_step, restart, replace_step, replace_from, decode_utf8_replace,
  strip_left, strip, replace_char, basename_from, basename,
}

pub replace_char-Lacks : (a b : ℕ) (s : Text) → a ≢ b → Lacks a (replace_char a b s)
unfolding replace_char
replace_char-Lacks a b [] h = tt
replace_char-Lacks a b (c ∷ cs) h = (ground arith, replace_char-Lacks a b cs h)

pub replace_char-Lacks_other :
    (x a b : ℕ) (s : Text) → x ≢ b → Lacks x s → Lacks x (replace_char a b s)
unfolding replace_char
replace_char-Lacks_other x a b [] h k = tt
replace_char-Lacks_other x a b (c ∷ cs) h k =
    (ground arith, replace_char-Lacks_other x a b cs h k.1)

pub length-replace_char : (a b : ℕ) (s : Text) → length (replace_char a b s) ≡ length s
unfolding replace_char
length-replace_char a b [] = refl
length-replace_char a b (c ∷ cs) = omega (arith, length-replace_char a b cs)

basename_from-All {κ} :
    (P : ℕ → Type κ) (tail s : Text) → All P tail → All P s → All P (basename_from tail s)
unfolding basename_from
basename_from-All P tail [] h k = h
basename_from-All P tail (c ∷ cs) h k = elim (Bool-cases (c == 47)) [
  | inl e ↦ rw e (basename_from-All P [] cs tt k.1)
  | inr e ↦ rw e (basename_from-All P (tail ++ c ∷ []) cs (All-append P tail _ h (k.0, tt)) k.1)
]

basename_from-Lacks : (tail s : Text) → Lacks 47 tail → Lacks 47 (basename_from tail s)
unfolding basename_from
basename_from-Lacks tail [] h = h
basename_from-Lacks tail (c ∷ cs) h = elim (Bool-cases (c == 47)) [
  | inl e ↦ rw e (basename_from-Lacks [] cs tt)
  | inr e ↦ rw e (
      basename_from-Lacks (tail ++ c ∷ []) cs
        (All-append (λ x. x ≢ 47) tail _ h (ground arith, tt)))
]

length-basename_from : (tail s : Text) → length (basename_from tail s) ≤ length tail + length s
unfolding basename_from
length-basename_from tail [] = omega arith
length-basename_from tail (c ∷ cs) = elim (Bool-cases (c == 47)) [
  | inl e ↦ rw e (omega (arith, length-basename_from [] cs))
  | inr e ↦
      rw e (omega (arith, length-basename_from (tail ++ c ∷ []) cs, length-append tail (c ∷ [])))
]

pub basename-All {κ} : (P : ℕ → Type κ) (s : Text) → All P s → All P (basename s)
unfolding basename
basename-All P s h = basename_from-All P [] s tt h

pub basename-Lacks : (s : Text) → Lacks 47 (basename s)
unfolding basename
basename-Lacks s = basename_from-Lacks [] s tt

pub length-basename : (s : Text) → length (basename s) ≤ length s
unfolding basename
length-basename s = omega (arith, length-basename_from [] s)

length-strip_left : (s : Text) → length (strip_left s) ≤ length s
unfolding strip_left
length-strip_left [] = omega arith
length-strip_left (c ∷ cs) = ground (arith, length-strip_left cs)

length-reverse : (s : Text) → length (reverse s) ≡ length s
length-reverse [] = refl
length-reverse (c ∷ cs) =
    omega
      (arith, ap length (reverse-cons c cs), length-append (reverse cs) (c ∷ []), length-reverse cs)

pub length-strip : (s : Text) → length (strip s) ≤ length s
unfolding strip
length-strip s = omega (
  arith,
  length-strip_left s,
  length-reverse (strip_left s),
  length-strip_left (reverse (strip_left s)),
  length-reverse (strip_left (reverse (strip_left s))),
)

-- How many characters a state may still owe.
abbrev owed : Utf8 → ℕ
owed ready = 0
owed (inside _ _ _ _) = 1

length-utf8_step :
    (s s' : Utf8) (b : ℕ) (out : Text) → utf8_step s b ≡ some (out, s') → length out + owed s' ≤ 1
unfolding utf8_step
length-utf8_step s s' b out h = ground arith

length-restart :
    (s : Utf8) (o : Option (Text × Utf8))
    → ((out : Text) (s' : Utf8) → o ≡ some (out, s') → length out + owed s' ≤ 1)
    → length (restart s o).0 + owed (restart s o).1 ≤ suc (owed s)
unfolding restart
length-restart ready o h = omega arith
length-restart (inside _ _ _ _) none h = omega arith
length-restart (inside _ _ _ _) (some (out, s')) h = omega (arith, h out s' refl)

length-replace_step :
    (s : Utf8) (b : ℕ) → length (replace_step s b).0 + owed (replace_step s b).1 ≤ suc (owed s)
length-replace_step s b = elim (Option-cases (utf8_step s b)) [
  | inr ((out, s'), e) ↦
      let same : replace_step s b ≡ (out, s') = unfold replace_step in ground arith in
      subst (λ r. length r.0 + owed r.1 ≤ suc (owed s)) (sym same)
        (omega (arith, length-utf8_step s s' b out e))
  | inl e ↦
      let same : replace_step s b ≡ restart s (utf8_step ready b) =
        unfold replace_step in ground arith in
      subst (λ r. length r.0 + owed r.1 ≤ suc (owed s)) (sym same)
        (length-restart s (utf8_step ready b) (λ out s'. length-utf8_step ready s' b out))
]

length-replace_from : (s : Utf8) (bs : List ℕ) → length (replace_from s bs) ≤ owed s + length bs
unfolding replace_from
length-replace_from ready [] = omega arith
length-replace_from (inside _ _ _ _) [] = omega arith
length-replace_from ready (b ∷ bs) = omega (
  arith,
  length-replace_step ready b,
  length-replace_from (replace_step ready b).1 bs,
  length-append (replace_step ready b).0 (replace_from (replace_step ready b).1 bs),
)
length-replace_from (inside l lo hi k) (b ∷ bs) = omega (
  arith,
  length-replace_step (inside l lo hi k) b,
  length-replace_from (replace_step (inside l lo hi k) b).1 bs,
  length-append (replace_step (inside l lo hi k) b).0
      (replace_from (replace_step (inside l lo hi k) b).1 bs),
)

-- A replaced decoding has at most one character for each byte.
pub length-decode_utf8_replace : (bs : List ℕ) → length (decode_utf8_replace bs) ≤ length bs
unfolding decode_utf8_replace
length-decode_utf8_replace bs = omega (arith, length-replace_from ready bs)
