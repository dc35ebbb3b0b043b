-- ===== src/Json/Decode.antt =====
-- `json.loads(text)` as one pass over the tokens with a stack of the open arrays and objects. A
-- JSONDecodeError is `value_error`, as is the ValueError of an integer with too many digits; an
-- object keeps the last value of a repeated key, at its first place.
pub mod Errors
pub mod Numbers
pub mod Readable
pub mod Roundtrip
use ttop_desk.Prelude.{
  ℕ, ◌+◌, ◌-◌, ◌*◌, Bool, true, false, ◌&&◌, ◌||◌, Option, none, some, List, [], ◌∷◌, Text, text,
  text_eq, ltb, leb, ◌==◌, if◌then◌else◌, length, ℤ, pos, neg_ℤ,
}
use ttop_desk.Python.Exceptions.{Result, ok, err, value_error, other_error}
use ttop_desk.Python.Runtime.{nan, infinite, Runtime}
use ttop_desk.Json.{
  Json, null, bool, int, float, str, arr, obj, Items, end_items, item, Fields, end_fields, field,
}
use ttop_desk.Json.Lexer.{
  Token, open_object, close_object, open_array, close_array, comma, colon, string, word, lex,
}

-- Where a numeral stands after some of its characters.
pub data Numeral : Type 0 where
  start minus leading_zero digits dot fraction exponent exponent_sign exponent_digits broken :
      Numeral

is_digit : ℕ → Bool
is_digit c = leb 48 c && leb c 57

-- -?(0|[1-9][0-9]*)(\.[0-9]+)?([eE][-+]?[0-9]+)?
read_digit : Numeral → ℕ → Numeral
unfolding is_digit
read_digit start c =
    if c == b'-'
    then minus
    else if c == 48
    then leading_zero
    else if is_digit c
    then digits
    else broken
read_digit minus c = if c == 48 then leading_zero else if is_digit c then digits else broken
read_digit leading_zero c =
    if c == b'.' then dot else if c == b'e' || c == b'E' then exponent else broken
read_digit digits c =
    if is_digit c
    then digits
    else if c == b'.'
    then dot
    else if c == b'e' || c == b'E'
    then exponent
    else broken
read_digit dot c = if is_digit c then fraction else broken
read_digit fraction c =
    if is_digit c then fraction else if c == b'e' || c == b'E' then exponent else broken
read_digit exponent c =
    if c == b'-' || c == b'+' then exponent_sign else if is_digit c then exponent_digits else broken
read_digit exponent_sign c = if is_digit c then exponent_digits else broken
read_digit exponent_digits c = if is_digit c then exponent_digits else broken
read_digit broken c = broken

numeral : Numeral → Text → Numeral
unfolding read_digit
numeral s [] = s
numeral s (c ∷ cs) = numeral (read_digit s c) cs

magnitude : ℕ → Text → ℕ
magnitude v [] = v
magnitude v (c ∷ cs) = magnitude (v * 10 + (c - 48)) cs

int_value : Text → ℤ
unfolding magnitude
int_value [] = pos 0
int_value (c ∷ cs) = if c == b'-' then neg_ℤ (pos (magnitude 0 cs)) else pos (magnitude 0 (c ∷ cs))

pub data Frame (F : Type 0) : Type 0 where
  array_frame : Items F → Frame F
  object_frame : Fields F → Text → Frame F

-- What may come next.
pub data Expect : Type 0 where
  value_or_close_array value key_or_close_object key after_key separator : Expect

pub data State (F : Type 0) : Type 0 where
  running : Expect → List (Frame F) → State F
  finished : Json F → State F
  raised : Result (Json F) → State F

module _ {F : Type 0} where
  abbrev malformed : State F
  malformed = raised (err value_error)

  pub append_item : Json F → Items F → Items F
  append_item v end_items = item v end_items
  append_item v (item w ws) = item w (append_item v ws)

  unfoldable pub set_field : Text → Json F → Fields F → Fields F
  set_field k v end_fields = field k v end_fields
  set_field k v (field j w fs) = if text_eq j k then field j v fs else field j w (set_field k v fs)

-- The characters of an integer's numeral but its sign.
unfoldable pub digit_count : Text → ℕ
digit_count [] = 0
digit_count (c ∷ cs) = if c == b'-' then digit_count cs else 1 + digit_count cs

-- CPython's `int(text)` takes no more digits, and raises a ValueError.
abbrev pub max_str_digits : ℕ
max_str_digits = 4300

abbrev pub has_few_digits : Text → Bool
has_few_digits w = leb (digit_count w) max_str_digits

module _ {F : Type 0} ⦃n : Runtime F⦄ where
  number : Text → Numeral → Option (Json F)
  unfolding int_value digit_count
  number w leading_zero = some (int (int_value w))
  number w digits = if has_few_digits w then some (int (int_value w)) else none
  number w fraction = elim (n.parse_float w) [ none ↦ none | some x ↦ some (float x) ]
  number w exponent_digits = elim (n.parse_float w) [ none ↦ none | some x ↦ some (float x) ]
  number w _ = none

  pub scalar : Text → Option (Json F)
  unfolding number numeral text_eq
  scalar w =
      if text_eq w (text "null")
      then some null
      else if text_eq w (text "true")
      then some (bool true)
      else if text_eq w (text "false")
      then some (bool false)
      else if text_eq w (text "NaN")
      then some (float nan)
      else if text_eq w (text "Infinity")
      then some (float (infinite false))
      else if text_eq w (text "-Infinity")
      then some (float (infinite true))
      else number w (numeral start w)

  -- A whole value goes to the innermost open array or object.
  pub deliver : Json F → List (Frame F) → State F
  unfolding append_item set_field
  deliver v [] = finished v
  deliver v (array_frame vs ∷ st) = running separator (array_frame (append_item v vs) ∷ st)
  deliver v (object_frame fs k ∷ st) = running separator (object_frame (set_field k v fs) k ∷ st)

  -- One more level; too many are a RecursionError, which no handler of the sources names.
  enter : Expect → Frame F → List (Frame F) → State F
  enter e f st =
      if ltb (length st) n.recursion_limit then running e (f ∷ st) else raised (err other_error)

  close : Token → List (Frame F) → State F
  unfolding deliver
  close close_array (array_frame vs ∷ st) = deliver (arr vs) st
  close close_object (object_frame fs k ∷ st) = deliver (obj fs) st
  close _ _ = malformed

  pub begin : Token → List (Frame F) → State F
  unfolding deliver enter scalar
  begin open_array st = enter value_or_close_array (array_frame end_items) st
  begin open_object st = enter key_or_close_object (object_frame end_fields []) st
  begin (string s) st = deliver (str s) st
  begin (word w) st = elim (scalar w) [ none ↦ malformed | some v ↦ deliver v st ]
  begin _ st = malformed

  named : Text → List (Frame F) → State F
  named k (object_frame fs _ ∷ st) = running after_key (object_frame fs k ∷ st)
  named k _ = malformed

  continue : List (Frame F) → State F
  continue (array_frame vs ∷ st) = running value (array_frame vs ∷ st)
  continue (object_frame fs k ∷ st) = running key (object_frame fs k ∷ st)
  continue [] = malformed

  pub step : Expect → Token → List (Frame F) → State F
  unfolding begin close named continue
  step value t st = begin t st
  step value_or_close_array close_array st = close close_array st
  step value_or_close_array t st = begin t st
  step key (string k) st = named k st
  step key _ st = malformed
  step key_or_close_object (string k) st = named k st
  step key_or_close_object close_object st = close close_object st
  step key_or_close_object _ st = malformed
  step after_key colon st = running value st
  step after_key _ st = malformed
  step separator comma st = continue st
  step separator t st = close t st

  next : State F → Token → State F
  unfolding step
  next (running e st) t = step e t st
  next (finished v) t = malformed
  next (raised r) t = raised r

  pub parse : State F → List Token → State F
  unfolding next
  parse s [] = s
  parse s (t ∷ ts) = parse (next s t) ts

  result : State F → Result (Json F)
  result (running e st) = err value_error
  result (finished v) = ok v
  result (raised r) = r

  unfoldable pub loads : Text → Result (Json F)
  unfolding parse result lex
  loads s = result (parse (running value []) (lex s))
