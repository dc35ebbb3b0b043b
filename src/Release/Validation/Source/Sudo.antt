-- ===== src/Release/Validation/Source/Sudo.antt =====
-- What the pattern for `sudo` in the scripts of a release finds.
use ttop_desk.Prelude.{
  ℕ, ◌≡◌, ◌⊎◌, refl, Bool, true, false, ◌&&◌, ◌||◌, [], ◌∷◌, ◌++◌, Text, text, All, arith, ◌==◌,
  starts_with,
}
use ttop_desk.Python.Strings.{is_whitespace}
use ttop_desk.Release.Validation.{drop}
use ttop_desk.Release.Validation.Source.{is_separator, sudo_from, runs_sudo, first_is}

-- The word ends: with white space, or with the text.
pub data IsWordEnd : Text → Type 0 where
  text_ends : IsWordEnd []
  space_follows : (c : ℕ) (rest : Text) → is_whitespace c ≡ true → IsWordEnd (c ∷ rest)

-- The word `sudo` at the start of the text or of a line, or behind a semicolon, an ampersand or a
-- bar with white space after it.
pub data RunsSudo : Text → Type 0 where
  at_start : (back : Text) → IsWordEnd back → RunsSudo (text "sudo" ++ back)
  at_line : (front back : Text) → IsWordEnd back → RunsSudo (front ++ 10 ∷ (text "sudo" ++ back))
  behind :
      (front : Text) (c : ℕ) (space back : Text)
      → (c ≡ b';') ⊎ (c ≡ b'&') ⊎ (c ≡ b'|')
      → All (λ w. is_whitespace w ≡ true) space
      → IsWordEnd back
      → RunsSudo (front ++ c ∷ (space ++ (text "sudo" ++ back)))

or_right : (a b : Bool) → b ≡ true → (a || b) ≡ true
or_right true b h = refl
or_right false b h = h

sudo_here :
    (line_start separated : Bool) (back : Text)
    → (line_start || separated) ≡ true
    → IsWordEnd back
    → sudo_from line_start separated (text "sudo" ++ back) ≡ true
unfolding sudo_from starts_with drop first_is
sudo_here l s _ h text_ends = rw h refl
sudo_here l s _ h (space_follows c rest w) = rw (h, w) refl

sudo_behind :
    (line_start : Bool) (space back : Text)
    → All (λ w. is_whitespace w ≡ true) space
    → IsWordEnd back
    → sudo_from line_start true (space ++ (text "sudo" ++ back)) ≡ true
unfolding sudo_from
sudo_behind l [] back h e = sudo_here l true back (ground arith) e
sudo_behind l (c ∷ space) back (w, h) e =
    let later : sudo_from (c == 10) true (space ++ (text "sudo" ++ back)) ≡ true =
      sudo_behind (c == 10) space back h e in
    let flag : (is_separator c || is_whitespace c) ≡ true = or_right (is_separator c) _ w in
    rw flag (or_right _ _ later)

sudo_later :
    (line_start separated : Bool) (front s : Text)
    → ((l b : Bool) → sudo_from l b s ≡ true)
    → sudo_from line_start separated (front ++ s) ≡ true
unfolding sudo_from
sudo_later l b [] s h = h l b
sudo_later l b (c ∷ front) s h =
    let later = sudo_later (c == 10) (is_separator c || b && is_whitespace c) front s h in
    ground arith

sudo_found : (script : Text) → RunsSudo script → runs_sudo script ≡ true
unfolding runs_sudo
sudo_found _ (at_start back e) = sudo_here true false back refl e
sudo_found _ (at_line front back e) = sudo_later true false front _ (λ l b. line l b)
  where
    line : (l b : Bool) → sudo_from l b (10 ∷ (text "sudo" ++ back)) ≡ true
    line l b =
        let later = sudo_here true (is_separator 10 || b && is_whitespace 10) back refl e in
        unfold sudo_from in ground arith
sudo_found _ (behind front c space back sep white e) =
    sudo_later true false front _ (λ l b. bar l b)
  where
    separated : is_separator c ≡ true
    separated = unfold is_separator in ground arith

    bar : (l b : Bool) → sudo_from l b (c ∷ (space ++ (text "sudo" ++ back))) ≡ true
    bar l b =
        let later = sudo_behind (c == 10) space back white e in
        let flag : (is_separator c || b && is_whitespace c) ≡ true = rw separated refl in
        unfold sudo_from in rw flag (or_right _ _ later)

-- Where the search finds nothing, nothing of this kind is there.
pub no_sudo : (script : Text) → runs_sudo script ≡ false → ¬ RunsSudo script
no_sudo script h s = let found = sudo_found script s in cc
