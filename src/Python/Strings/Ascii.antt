-- ===== src/Python/Strings/Ascii.antt =====
-- UTF-8 of ASCII.
use ttop_desk.Prelude.{ℕ, ◌≤◌, ◌≡◌, refl, some, [], ◌∷◌, Text, ltb, true, arith}
use ttop_desk.Python.Runtime.{IsPrintable}
use ttop_desk.Python.Strings.{ready, utf8_step, utf8_from, decode_utf8}

utf8_step-ascii : (b : ℕ) → b ≤ 126 → utf8_step ready b ≡ some (b ∷ [], ready)
unfolding utf8_step
utf8_step-ascii b h = let e : ltb b 128 ≡ true = ground arith in rw e refl

utf8_from-ascii : (t : Text) → IsPrintable t → utf8_from ready t ≡ some t
unfolding utf8_from
utf8_from-ascii [] h = refl
utf8_from-ascii (c ∷ t) (h, hs) = rw (utf8_step-ascii c h.1, utf8_from, utf8_from-ascii t hs) refl

-- Visible ASCII is decoded as it is.
pub decode_utf8-IsPrintable : (t : Text) → IsPrintable t → decode_utf8 t ≡ some t
unfolding decode_utf8
decode_utf8-IsPrintable t h = utf8_from-ascii t h
