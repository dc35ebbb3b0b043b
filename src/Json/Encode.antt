-- ===== src/Json/Encode.antt =====
-- `json.dumps(value, separators=(",", ":"), allow_nan=False)`: compact and ASCII only.
pub mod Printable
pub mod Success
use mathlib.Core.Logic.{dite}
use mathlib.Core.WellFounded.{Acc}
use native.Mathlib.Decide.{dec_lt}
use ttop_desk.Prelude.{
  ℕ, zero, suc, ◌+◌, ◌-◌, ◌/◌, ◌%◌, ◌<◌, ◌&&◌, Option, none, some, [], ◌∷◌, ◌++◌, Text, text, ℤ,
  pos, negsuc, ltb, leb, ◌==◌, if◌then◌else◌, arith,
}
use ttop_desk.Python.Exceptions.{Result, ok, err, value_error, ◌>>=◌}
use ttop_desk.Python.Runtime.{nan, infinite, finite, Runtime}
use ttop_desk.Json.{
  Json, null, bool, int, float, str, arr, obj, Items, end_items, item, Fields, end_fields, field,
}

Acc-below : (k n : ℕ) → n < k → Acc ◌<◌ n
Acc-below zero n h = elim h [ ]
Acc-below (suc k) n h = Acc.intro n (λ m hm. Acc-below k m (omega arith))

unfoldable pub accessible : (n : ℕ) → Acc ◌<◌ n
unfolding Acc-below
accessible n = Acc-below (suc n) n (omega arith)

unfoldable pub emit : (n : ℕ) → Acc ◌<◌ n → Text → Text
emit n (Acc.intro _ smaller) out =
    dite (dec_lt n 10) (λ _. (48 + n) ∷ out)
      (λ h. emit (n / 10) (smaller (n / 10) (omega arith)) ((48 + n % 10) ∷ out))

-- `str(n)` of a number, and of an integer
unfoldable pub decimal : ℕ → Text
unfolding emit accessible dec_lt
decimal n = emit n (accessible n) []

unfoldable pub int_text : ℤ → Text
unfolding decimal
int_text (pos n) = decimal n
int_text (negsuc n) = b'-' ∷ decimal (suc n)

abbrev pub hex_digit : ℕ → ℕ
hex_digit d = if ltb d 10 then 48 + d else 87 + d

-- `\uXXXX`
unfoldable pub unicode_escape : ℕ → Text
unicode_escape c =
    92
    ∷ 117
    ∷ hex_digit (c / 4096 % 16)
    ∷ hex_digit (c / 256 % 16)
    ∷ hex_digit (c / 16 % 16)
    ∷ hex_digit (c % 16)
    ∷ []

-- The letter of a short escape.
unfoldable pub short_escape : ℕ → Option ℕ
short_escape c =
    if c == 34
    then some 34
    else if c == 92
    then some 92
    else if c == 10
    then some b'n'
    else if c == 13
    then some b'r'
    else if c == 9
    then some b't'
    else if c == 12
    then some b'f'
    else if c == 8
    then some b'b'
    else none

unfoldable pub escape_as : Option ℕ → ℕ → Text
escape_as (some letter) c = 92 ∷ letter ∷ []
escape_as none c =
    if leb 32 c && leb c 126
    then c ∷ []
    else if ltb c 65536
    then unicode_escape c
    else unicode_escape (55296 + (c - 65536) / 1024 % 1024) ++ unicode_escape (56320 + c % 1024)

-- One character between the quotes; beyond the basic plane it is a surrogate pair.
unfoldable pub escape : ℕ → Text
unfolding unicode_escape short_escape escape_as
escape c = escape_as (short_escape c) c

unfoldable pub escape_all : Text → Text
unfolding escape
escape_all [] = []
escape_all (c ∷ cs) = escape c ++ escape_all cs

unfoldable pub quote : Text → Text
unfolding escape_all
quote s = 34 ∷ (escape_all s ++ 34 ∷ [])

module _ {F : Type 0} ⦃n : Runtime F⦄ where
  unfoldable mutual
    unfolding quote int_text

    pub dumps : Json F → Result Text
    dumps null = ok (text "null")
    dumps (bool b) = ok (if b then text "true" else text "false")
    dumps (int z) = ok (int_text z)
    dumps (float nan) = err value_error
    dumps (float (infinite _)) = err value_error
    dumps (float (finite a)) = ok (n.repr a)
    dumps (str s) = ok (quote s)
    dumps (arr end_items) = ok (text "[]")
    dumps (arr (item v vs)) = do first ← dumps v; rest ← dumps_items vs; ok (91 ∷ (first ++ rest))
    dumps (obj end_fields) = ok (text "{}")
    dumps (obj (field k v fs)) = do
      first ← dumps v
      rest ← dumps_fields fs
      ok (123 ∷ (quote k ++ 58 ∷ (first ++ rest)))

    -- what follows the first element
    pub dumps_items : Items F → Result Text
    dumps_items end_items = ok (93 ∷ [])
    dumps_items (item v vs) = do first ← dumps v; rest ← dumps_items vs; ok (44 ∷ (first ++ rest))

    pub dumps_fields : Fields F → Result Text
    dumps_fields end_fields = ok (125 ∷ [])
    dumps_fields (field k v fs) = do
      first ← dumps v
      rest ← dumps_fields fs
      ok (44 ∷ (quote k ++ 58 ∷ (first ++ rest)))
