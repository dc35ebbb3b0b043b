-- ===== src/Release/Paths/Laws.antt =====
-- Paths printed and parsed again, and where a path without ".." leads.
use ttop_desk.Prelude.{
  ℕ, ◌≡◌, refl, ap, ap₂, ◌∙◌, true, false, List, [], ◌∷◌, ◌++◌, Text, text, text_eq, Lacks, All,
  arith, starts_with,
}
use ttop_desk.Python.Strings.{is_empty}
use ttop_desk.Release.Paths.{
  rstrip_char, ends_with, is_absolute, split_on, join, PurePath, is_kept, kept_parts, root_of,
  parse_path, joined, as_posix,
}

-- A part as a directory entry has it: kept, and without a slash.
abbrev pub IsPart : Text → Type 0
IsPart part = (is_kept part ≡ true) × Lacks b'/' part

pub split_on-append :
    (c : ℕ) (t rest : Text) → Lacks c t → split_on c (t ++ c ∷ rest) ≡ t ∷ split_on c rest
unfolding split_on
split_on-append c [] rest h = ground arith
split_on-append c (x ∷ xs) rest h = rw (split_on-append c xs rest h.1) (ground arith)

pub split_on_single : (c : ℕ) (t : Text) → Lacks c t → split_on c t ≡ t ∷ []
unfolding split_on
split_on_single c [] h = refl
split_on_single c (x ∷ xs) h = rw (split_on_single c xs h.1) (ground arith)

split_on-join :
    (t : Text) (ts : List Text) → All IsPart (t ∷ ts) → split_on b'/' (join b'/' (t ∷ ts)) ≡ t ∷ ts
unfolding join
split_on-join t [] h = split_on_single b'/' t h.0.1
split_on-join t (u ∷ ts) h =
    split_on-append b'/' t (join b'/' (u ∷ ts)) h.0.1 ∙ ap (◌∷◌ t) (split_on-join u ts h.1)

kept_parts_all : (ts : List Text) → All IsPart ts → kept_parts ts ≡ ts
unfolding kept_parts
kept_parts_all [] h = refl
kept_parts_all (t ∷ ts) h = rw (kept_parts_all ts h.1, h.0.0) refl

root_of-join : (t : Text) (ts : List Text) → All IsPart (t ∷ ts) → root_of (join b'/' (t ∷ ts)) ≡ []
unfolding root_of join starts_with
root_of-join [] ts h = absurd (ground arith)
root_of-join (x ∷ xs) [] h = ground arith
root_of-join (x ∷ xs) (u ∷ ts) h = ground arith

join-nonempty :
    (t : Text) (ts : List Text) → All IsPart (t ∷ ts) → is_empty (join b'/' (t ∷ ts)) ≡ false
unfolding join
join-nonempty [] ts h = absurd (ground arith)
join-nonempty (x ∷ xs) [] h = refl
join-nonempty (x ∷ xs) (u ∷ ts) h = refl

-- A relative path that has a part.
abbrev pub relative : Text → List Text → PurePath
relative t ts = record { root = []; parts = t ∷ ts }

pub as_posix-relative :
    (t : Text) (ts : List Text)
    → All IsPart (t ∷ ts)
    → as_posix (relative t ts) ≡ join b'/' (t ∷ ts)
unfolding as_posix
as_posix-relative t ts h = rw (join-nonempty t ts h) refl

-- A relative path of parts is parsed back from what `as_posix` prints.
pub parse_path-as_posix :
    (t : Text) (ts : List Text)
    → All IsPart (t ∷ ts)
    → parse_path (as_posix (relative t ts)) ≡ relative t ts
unfolding parse_path
parse_path-as_posix t ts h =
    ap parse_path (as_posix-relative t ts h)
    ∙ ap₂ (λ r ps. record { root = r; parts = ps }) (root_of-join t ts h)
        (ap kept_parts (split_on-join t ts h) ∙ kept_parts_all (t ∷ ts) h)

pub joined-parts :
    (base path : PurePath) → path.root ≡ [] → (joined base path).parts ≡ base.parts ++ path.parts
unfolding joined is_absolute
joined-parts base path h = rw h refl

rstrip_char-append :
    (c : ℕ) (a b : Text)
    → is_empty b ≡ false
    → rstrip_char c b ≡ b
    → rstrip_char c (a ++ b) ≡ a ++ b
unfolding rstrip_char
rstrip_char-append c [] b h k = k
rstrip_char-append c (x ∷ []) b h k = rw (k, h) refl
rstrip_char-append c (x ∷ y ∷ a) b h k = rw (rstrip_char-append c (y ∷ a) b h k) refl

pub rstrip_char_none : (c : ℕ) (s : Text) → Lacks c s → rstrip_char c s ≡ s
unfolding rstrip_char
rstrip_char_none c [] h = refl
rstrip_char_none c (x ∷ xs) h = rw (rstrip_char_none c xs h.1) (ground arith)

pub rstrip_char_end : (c : ℕ) (s : Text) → rstrip_char c (s ++ c ∷ []) ≡ rstrip_char c s
unfolding rstrip_char
rstrip_char_end c [] = ground arith
rstrip_char_end c (x ∷ xs) = rw (rstrip_char_end c xs) refl

pub rstrip_char-join :
    (t : Text) (ts : List Text)
    → All IsPart (t ∷ ts)
    → rstrip_char b'/' (join b'/' (t ∷ ts)) ≡ join b'/' (t ∷ ts)
unfolding join
rstrip_char-join t [] h = rstrip_char_none b'/' t h.0.1
rstrip_char-join t (u ∷ ts) h = rstrip_char-append b'/' t (b'/' ∷ join b'/' (u ∷ ts)) refl (
    rstrip_char-append b'/' (text "/") (join b'/' (u ∷ ts)) (join-nonempty u ts h.1)
      (rstrip_char-join u ts h.1))

ends_with_slash-append :
    (a b : Text)
    → ends_with (text "/") b ≡ false
    → is_empty b ≡ false
    → ends_with (text "/") (a ++ b) ≡ false
unfolding ends_with text_eq
ends_with_slash-append [] b h k = h
ends_with_slash-append (x ∷ []) [] h k = cc
ends_with_slash-append (x ∷ []) (y ∷ b) h k = ground arith
ends_with_slash-append (x ∷ y ∷ a) b h k = ground (arith, ends_with_slash-append (y ∷ a) b h k)

ends_with_slash_none : (t : Text) → Lacks b'/' t → ends_with (text "/") t ≡ false
unfolding ends_with text_eq
ends_with_slash_none [] h = refl
ends_with_slash_none (x ∷ xs) h = ground (arith, ends_with_slash_none xs h.1)

pub ends_with_slash-join :
    (t : Text) (ts : List Text)
    → All IsPart (t ∷ ts)
    → ends_with (text "/") (join b'/' (t ∷ ts)) ≡ false
unfolding join
ends_with_slash-join t [] h = ends_with_slash_none t h.0.1
ends_with_slash-join t (u ∷ ts) h =
    let rest = ends_with_slash-join u ts h.1 in
    let nonempty = join-nonempty u ts h.1 in
    ends_with_slash-append t (b'/' ∷ join b'/' (u ∷ ts))
      (ends_with_slash-append (text "/") (join b'/' (u ∷ ts)) rest nonempty) refl
