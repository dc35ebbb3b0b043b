-- ===== src/Json/Tests.antt =====
-- The round trip of JSON at a value with every kind of value in it but a float.
use ttop_desk.Prelude.{◌≡◌, refl, true, [], ◌∷◌, Text, text, text_eq, ℤ, pos, negsuc, arith}
use ttop_desk.Python.Exceptions.{ok}
use ttop_desk.Python.Runtime.Integers.{integers}
use ttop_desk.Json.{Json, null, bool, int, str, arr, obj, end_items, item, end_fields, field}
use ttop_desk.Json.Encode.{dumps}
use ttop_desk.Json.Decode.{loads}
use ttop_desk.Json.Decode.Readable.{IsReadable}
use ttop_desk.Json.Decode.Roundtrip.{loads-dumps}

-- A quote, a newline, a letter with an accent, and one beyond the basic plane.
abbrev letters : Text
letters = 34 ∷ 10 ∷ 233 ∷ 128512 ∷ []

abbrev nested : Json ℤ
nested = obj (
    field (text "a")
      (arr (item (int (pos 10)) (item (int (negsuc 19)) (item (str letters) end_items))))
      (field (text "b") (obj end_fields)
        (field (text "c") null (field (text "d") (bool true) end_fields))))

abbrev nested_text : Text
nested_text =
    text "{\"a\":[10,-20,\"\\\"\\n\\u00e9\\ud83d\\ude00\"],\"b\":{},\"c\":null,\"d\":true}"

nested_written : dumps nested ≡ ok nested_text
unfolding dumps
nested_written = refl

nested-IsReadable : IsReadable 0 nested
unfolding IsReadable ttop_desk.Json.Decode.Readable.AreNew text_eq ttop_desk.Json.Decode.set_field
    ttop_desk.Json.Encode.int_text ttop_desk.Json.Decode.digit_count
nested-IsReadable = ground arith

nested_read : loads nested_text ≡ ok nested
nested_read = loads-dumps nested nested_text nested-IsReadable nested_written
