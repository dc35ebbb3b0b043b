-- ===== src/Release/Archives/Entries/Names.antt =====
-- The names of archives' members are clean where the parts of the paths are.
use ttop_desk.Prelude.{
  ◌≡◌, ◌⊎◌, inl, inr, refl, sym, ap, ◌∙◌, true, false, List, [], ◌∷◌, ◌++◌, Text, text, text_eq,
  All, All-map, member_text, if◌then◌else◌,
}
use ttop_desk.Python.Exceptions.{ok}
use ttop_desk.Python.Strings.{is_empty}
use ttop_desk.Release.Paths.{
  is_kept, join, rstrip_char, parse_path, joined, as_posix, is_absolute, ends_with,
}
use ttop_desk.Release.Paths.Laws.{
  IsPart, relative, as_posix-relative, parse_path-as_posix, ends_with_slash-join, rstrip_char-join,
  rstrip_char_none, rstrip_char_end,
}
use ttop_desk.Release.Archives.{Entry, archive_name}
use ttop_desk.Release.Archives.Entries.{safe_name, assert_clean_name, is_developer_part, any_text}

-- A directory entry's name that a release may have.
abbrev pub IsCleanPart : Text → Type 0
IsCleanPart part =
    IsPart part × (text_eq part (text "..") ≡ false) × (is_developer_part part ≡ false)

-- The parts of a path below the source: at least one, all clean.
abbrev pub IsCleanPath : List Text → Type 0
IsCleanPath [] = ⊥
IsCleanPath (t ∷ ts) = All IsCleanPart (t ∷ ts)

-- No prefix, or one clean part.
abbrev pub IsPrefix : Text → Type 0
IsPrefix prefix = (prefix ≡ []) ⊎ IsCleanPart prefix

second : (t : Text) → IsCleanPart t → text_eq t (text "..") ≡ false
second t (_, a, _) = a

third : (t : Text) → IsCleanPart t → is_developer_part t ≡ false
third t (_, _, b) = b

no_parent : (ts : List Text) → All IsCleanPart ts → member_text (text "..") ts ≡ false
unfolding member_text
no_parent [] h = refl
no_parent (t ∷ ts) h = rw (second t h.0) (no_parent ts h.1)

no_developer : (ts : List Text) → All IsCleanPart ts → any_text is_developer_part ts ≡ false
unfolding any_text
no_developer [] h = refl
no_developer (t ∷ ts) h = rw (third t h.0) (no_developer ts h.1)

are_parts : (ts : List Text) → All IsCleanPart ts → All IsPart ts
are_parts ts = All-map IsCleanPart IsPart ts (λ t h. h.0)

-- A joined clean path is parsed as its parts.
parse_path-join :
    (t : Text) (ts : List Text)
    → All IsCleanPart (t ∷ ts)
    → parse_path (join b'/' (t ∷ ts)) ≡ relative t ts
parse_path-join t ts h =
    ap parse_path (sym (as_posix-relative t ts (are_parts (t ∷ ts) h)))
    ∙ parse_path-as_posix t ts (are_parts (t ∷ ts) h)

assert_clean_name-join :
    (t : Text) (ts : List Text)
    → All IsCleanPart (t ∷ ts)
    → assert_clean_name (join b'/' (t ∷ ts)) ≡ ok tt
unfolding assert_clean_name safe_name is_absolute
assert_clean_name-join t ts h =
    rw (parse_path-join t ts h, no_parent (t ∷ ts) h, no_developer (t ∷ ts) h) refl

-- The parts of a member's name.
abbrev member_parts : Text → List Text → List Text
member_parts prefix ts = if is_empty prefix then ts else prefix ∷ ts

IsCleanPath-cases :
    (ps : List Text)
    → IsCleanPath ps
    → (t : Text) × (ts : List Text) × (ps ≡ t ∷ ts) × All IsCleanPart (t ∷ ts)
IsCleanPath-cases [] h = elim h [ ]
IsCleanPath-cases (t ∷ ts) h = (t, ts, refl, h)

pub is_kept→nonempty : (t : Text) → is_kept t ≡ true → is_empty t ≡ false
is_kept→nonempty [] h = cc
is_kept→nonempty (x ∷ xs) h = refl

archive_name-join :
    (e : Entry) (prefix : Text) (t : Text) (ts : List Text)
    → e.parts ≡ t ∷ ts
    → All IsCleanPart (t ∷ ts)
    → IsPrefix prefix
    → archive_name e prefix ≡ join b'/' (member_parts prefix (t ∷ ts))
unfolding archive_name joined is_absolute as_posix join
archive_name-join e prefix t ts h k (inl p) =
    rw (p, h, parse_path-join t ts k) (as_posix-relative t ts (are_parts (t ∷ ts) k))
archive_name-join e prefix t ts h k (inr p) =
    rw (is_kept→nonempty prefix p.0.0, h, parse_path-join t ts k, parse_path-join prefix [] (p, tt))
      (as_posix-relative prefix (t ∷ ts) (are_parts (prefix ∷ t ∷ ts) (p, k)))

-- A member's name is clean, and a directory's is that of a file with one more slash.
pub record IsMemberName (name : Text) : Type 0 where
  pub clean : assert_clean_name name ≡ ok tt
  pub stripped : rstrip_char b'/' (name ++ text "/") ≡ name
  pub of_file : ends_with (text "/") name ≡ false

join-IsMemberName :
    (t : Text) (ts : List Text) → All IsCleanPart (t ∷ ts) → IsMemberName (join b'/' (t ∷ ts))
join-IsMemberName t ts h = record {
  clean = assert_clean_name-join t ts h;
  stripped =
      rstrip_char_end b'/' (join b'/' (t ∷ ts)) ∙ rstrip_char-join t ts (are_parts (t ∷ ts) h);
  of_file = ends_with_slash-join t ts (are_parts (t ∷ ts) h);
}

prefixed-IsMemberName :
    (prefix t : Text) (ts : List Text)
    → All IsCleanPart (t ∷ ts)
    → IsPrefix prefix
    → IsMemberName (join b'/' (member_parts prefix (t ∷ ts)))
prefixed-IsMemberName prefix t ts h (inl p) = rw p (join-IsMemberName t ts h)
prefixed-IsMemberName prefix t ts h (inr p) =
    rw (is_kept→nonempty prefix p.0.0) (join-IsMemberName prefix (t ∷ ts) (p, h))

pub archive_name-IsMemberName :
    (e : Entry) (prefix : Text)
    → IsCleanPath e.parts
    → IsPrefix prefix
    → IsMemberName (archive_name e prefix)
archive_name-IsMemberName e prefix h p =
    let (t, ts, same, k) = IsCleanPath-cases e.parts h in
    rw (archive_name-join e prefix t ts same k p) (prefixed-IsMemberName prefix t ts k p)

-- The name that is read for the first member, the directory of the prefix.
pub prefix-IsMemberName : (prefix : Text) → IsCleanPart prefix → IsMemberName prefix
unfolding join
prefix-IsMemberName prefix h = join-IsMemberName prefix [] (h, tt)

pub rstrip_char-prefix : (prefix : Text) → IsCleanPart prefix → rstrip_char b'/' prefix ≡ prefix
rstrip_char-prefix prefix h = rstrip_char_none b'/' prefix h.0.1
