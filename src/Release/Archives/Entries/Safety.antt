-- ===== src/Release/Archives/Entries/Safety.antt =====
-- A safe name leads to a place below the directory that it is joined to.
use mathlib.Core.List.{append_assoc, append-nil}
use ttop_desk.Prelude.{
  ◌≡◌, refl, sym, ◌∙◌, false, List, [], ◌∷◌, ◌++◌, ◌||◌, Text, text, text_eq, arith, if◌then◌else◌,
  member_text, Bool-cases, inl, inr,
}
use ttop_desk.Python.Exceptions.{ok, assertion_error, raise_if-passed}
use ttop_desk.Release.Paths.{PurePath, parse_path, joined, is_absolute}
use ttop_desk.Release.Archives.Entries.{safe_name}

-- The directory without its last part.
abbrev pub parent : List Text → List Text
parent [] = []
parent (p ∷ []) = []
parent (p ∷ q ∷ ps) = p ∷ parent (q ∷ ps)

-- Where a process in `place` comes to that follows the parts one by one.
abbrev pub walk : List Text → List Text → List Text
walk place [] = place
walk place (p ∷ ps) = walk (if text_eq p (text "..") then parent place else place ++ p ∷ []) ps

walk-append :
    (place front back : List Text) → walk place (front ++ back) ≡ walk (walk place front) back
walk-append place [] back = refl
walk-append place (p ∷ front) back =
    walk-append (if text_eq p (text "..") then parent place else place ++ p ∷ []) front back

walk_down :
    (place ps : List Text) → member_text (text "..") ps ≡ false → walk place ps ≡ place ++ ps
unfolding member_text
walk_down place [] h = sym (append-nil place)
walk_down place (p ∷ ps) h = elim (Bool-cases (text_eq p (text ".."))) [
  | inl e ↦ absurd (ground arith)
  | inr e ↦ rw e (walk_down (place ++ p ∷ []) ps (ground arith) ∙ append_assoc place (p ∷ []) ps)
]

pub safe_name-ok :
    (name : Text) (path : PurePath)
    → safe_name name ≡ ok path
    → (is_absolute path ≡ false)
      × (member_text (text "..") path.parts ≡ false)
      × (parse_path name ≡ path)
unfolding safe_name
safe_name-ok name path h =
    let (test, same) =
      raise_if-passed
        (is_absolute (parse_path name) || member_text (text "..") (parse_path name).parts)
        assertion_error (ok (parse_path name)) h in
    let same' : parse_path name ≡ path = ground arith in
    rw (← same') (ground arith, ground arith, refl)

-- A name that `safe_name` accepts leads, joined to any directory, to a place below the one to
-- which the directory leads.
pub safe_name_stays_below :
    (name : Text) (path directory : PurePath) (place : List Text)
    → safe_name name ≡ ok path
    → walk place (joined directory path).parts ≡ walk place directory.parts ++ path.parts
unfolding joined
safe_name_stays_below name path directory place h =
    let (relative, no_parent, _) = safe_name-ok name path h in
    rw relative (
      walk-append place directory.parts path.parts
      ∙ walk_down (walk place directory.parts) path.parts no_parent)
