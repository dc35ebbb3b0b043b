-- ===== src/Json/Decode/Roundtrip.antt =====
-- `json.loads` reads back what `json.dumps` writes.
use mathlib.Core.List.{append_assoc, append-nil}
use ttop_desk.Prelude.{
  suc, ◌<◌, ◌≡◌, refl, ap, sym, ◌∙◌, true, false, List, [], ◌∷◌, ◌++◌, Text, text, text_eq, All,
  arith, length,
}
use ttop_desk.Python.Exceptions.{ok, >>=-eq-ok, ok-injective}
use ttop_desk.Python.Runtime.{nan, infinite, finite, Runtime}
use ttop_desk.Json.{
  Json, null, bool, int, float, str, arr, obj, Items, end_items, item, Fields, end_fields, field,
}
use ttop_desk.Json.Encode.{dumps, dumps_items, dumps_fields, quote, int_text}
use ttop_desk.Json.Lexer.{
  open_object, close_object, open_array, close_array, comma, colon, string, mark, is_space, lex,
}
use ttop_desk.Json.Lexer.Strings.{IsScalar, lex-quote}
use ttop_desk.Json.Lexer.Words.{IsDelimited}
use ttop_desk.Json.Decode.Numbers.{int_text-IsRead}
use ttop_desk.Json.Decode.{
  Frame, array_frame, object_frame, Expect, value_or_close_array, value, key_or_close_object, key,
  after_key, separator, running, append_item, set_field, scalar, deliver, enter, close, begin,
  named, continue, step, parse, result, loads,
}
use ttop_desk.Json.Decode.Readable.{
  IsForValue, IsReadable, AreReadable, AreFieldsReadable, join_items, join_fields, join_items_nil,
  join_fields_nil, step-begin, parse-token, parse-mark, word-read,
}

member_assoc :
    (k a b rest : Text) → (quote k ++ 58 ∷ (a ++ b)) ++ rest ≡ quote k ++ 58 ∷ (a ++ (b ++ rest))
member_assoc k a b rest =
    append_assoc (quote k) (58 ∷ (a ++ b)) rest
    ∙ ap (λ u. quote k ++ 58 ∷ u) (append_assoc a b rest)

module _ {F : Type 0} ⦃n : Runtime F⦄ where
  -- What follows the first element starts with a mark.
  items-IsDelimited :
      (vs : Items F) (b rest : Text) → dumps_items vs ≡ ok b → IsDelimited (b ++ rest)
  unfolding dumps is_space mark
  items-IsDelimited end_items b rest h = rw (sym (ok-injective h)) (close_array, refl, refl, refl)
  items-IsDelimited (item v vs) b rest h =
      let (a, p, h') = >>=-eq-ok (dumps v) _ h in
      let (b', q, e) = >>=-eq-ok (dumps_items vs) _ h' in
      rw (sym (ok-injective e)) (comma, refl, refl, refl)

  fields-IsDelimited :
      (fs : Fields F) (b rest : Text) → dumps_fields fs ≡ ok b → IsDelimited (b ++ rest)
  unfolding dumps is_space mark
  fields-IsDelimited end_fields b rest h =
      rw (sym (ok-injective h)) (close_object, refl, refl, refl)
  fields-IsDelimited (field k v fs) b rest h =
      let (a, p, h') = >>=-eq-ok (dumps v) _ h in
      let (b', q, e) = >>=-eq-ok (dumps_fields fs) _ h' in
      rw (sym (ok-injective e)) (comma, refl, refl, refl)

  -- A key and its colon.
  key-read :
      (k j : Text) (e : Expect) (fs : Fields F) (st : List (Frame F)) (rest : Text)
      → step e (string k) (object_frame fs j ∷ st) ≡ running after_key (object_frame fs k ∷ st)
      → All IsScalar k
      → parse (running e (object_frame fs j ∷ st)) (lex (quote k ++ 58 ∷ rest))
        ≡ parse (running value (object_frame fs k ∷ st)) (lex rest)
  unfolding is_space mark step
  key-read k j e fs st rest p h =
      parse-token e (string k) _ _ (quote k ++ 58 ∷ rest) (58 ∷ rest) (lex-quote k (58 ∷ rest) h) p
      ∙ parse-mark 58 colon after_key _ _ rest (refl, refl, refl) refl

  enter_below :
      (e : Expect) (f : Frame F) (st : List (Frame F))
      → length st < n.recursion_limit
      → enter e f st ≡ running e (f ∷ st)
  unfolding enter
  enter_below e f st h = ground arith

  mutual
    unfolding dumps is_space mark set_field append_item scalar text_eq IsReadable step begin close
        deliver continue named join_items join_fields

    value-read :
        (v : Json F) (t : Text) (e : Expect) (st : List (Frame F)) (rest : Text)
        → IsForValue e
        → IsReadable (length st) v
        → dumps v ≡ ok t
        → IsDelimited rest
        → parse (running e st) (lex (t ++ rest)) ≡ parse (deliver v st) (lex rest)
    value-read null t e st rest h r p d = rw (sym (ok-injective p)) (
        word-read (text "null") null e st rest h
          ((refl, refl, refl), ((refl, refl, refl), ((refl, refl, refl), ((refl, refl, refl), tt))))
          refl d)
    value-read (bool true) t e st rest h r p d = rw (sym (ok-injective p)) (
        word-read (text "true") (bool true) e st rest h
          ((refl, refl, refl), ((refl, refl, refl), ((refl, refl, refl), ((refl, refl, refl), tt))))
          refl d)
    value-read (bool false) t e st rest h r p d = rw (sym (ok-injective p)) (
        word-read (text "false") (bool false) e st rest h
          (
            (refl, refl, refl),
            (
              (refl, refl, refl),
              ((refl, refl, refl), ((refl, refl, refl), ((refl, refl, refl), tt))),
            ),
          )
          refl d)
    value-read (int z) t e st rest h r p d =
        let w = int_text-IsRead F z r in
        rw (sym (ok-injective p))
          (word-read (int_text z) (int z) e st rest h w.are_chars w.is_scalar d)
    value-read (float nan) t e st rest h r p d = cc
    value-read (float (infinite s)) t e st rest h r p d = cc
    value-read (float (finite a)) t e st rest h r p d =
        rw (sym (ok-injective p)) (word-read (n.repr a) (float (finite a)) e st rest h r.0 r.1 d)
    value-read (str s) t e st rest h r p d = rw (sym (ok-injective p)) (
        parse-token e (string s) st (deliver (str s) st) (quote s ++ rest) rest (lex-quote s rest r)
          (step-begin e (string s) st h tt))
    value-read (arr end_items) t e st rest h r p d = rw (sym (ok-injective p)) (
        parse-mark 91 open_array e st _ (93 ∷ rest) (refl, refl, refl)
          (step-begin e open_array st h tt
            ∙ enter_below value_or_close_array (array_frame end_items) st r.0)
        ∙ parse-mark 93 close_array value_or_close_array _ (deliver (arr end_items) st) rest
            (refl, refl, refl) refl)
    value-read (arr (item v vs)) t e st rest h r p d =
        let (a, q, p') = >>=-eq-ok (dumps v) _ p in
        let (b, q', same) = >>=-eq-ok (dumps_items vs) _ p' in
        let (below, (first, later)) = r in
        rw (sym (ok-injective same)) (
          parse-mark 91 open_array e st _ ((a ++ b) ++ rest) (refl, refl, refl)
            (step-begin e open_array st h tt
              ∙ enter_below value_or_close_array (array_frame end_items) st below)
          ∙ ap (λ u. parse (running value_or_close_array (array_frame end_items ∷ st)) (lex u))
              (append_assoc a b rest)
          ∙ value-read v a value_or_close_array (array_frame end_items ∷ st) (b ++ rest) tt first q
              (items-IsDelimited vs b rest q')
          ∙ items-read vs b (item v end_items) st rest later q' d
          ∙ ap (λ us. parse (deliver (arr us) st) (lex rest)) (join_items_nil (item v vs)))
    value-read (obj end_fields) t e st rest h r p d = rw (sym (ok-injective p)) (
        parse-mark 123 open_object e st _ (125 ∷ rest) (refl, refl, refl)
          (step-begin e open_object st h tt
            ∙ enter_below key_or_close_object (object_frame end_fields []) st r.0)
        ∙ parse-mark 125 close_object key_or_close_object _ (deliver (obj end_fields) st) rest
            (refl, refl, refl) refl)
    value-read (obj (field k v fs)) t e st rest h r p d =
        let (a, q, p') = >>=-eq-ok (dumps v) _ p in
        let (b, q', same) = >>=-eq-ok (dumps_fields fs) _ p' in
        let (below, new, (named_well, first, later)) = r in
        rw (sym (ok-injective same)) (
          parse-mark 123 open_object e st _ ((quote k ++ 58 ∷ (a ++ b)) ++ rest) (refl, refl, refl)
            (step-begin e open_object st h tt
              ∙ enter_below key_or_close_object (object_frame end_fields []) st below)
          ∙ ap (λ u. parse (running key_or_close_object (object_frame end_fields [] ∷ st)) (lex u))
              (member_assoc k a b rest)
          ∙ key-read k [] key_or_close_object end_fields st (a ++ (b ++ rest)) refl named_well
          ∙ value-read v a value (object_frame end_fields k ∷ st) (b ++ rest) tt first q
              (fields-IsDelimited fs b rest q')
          ∙ fields-read fs b (field k v end_fields) k st rest later q' d
          ∙ ap (λ gs. parse (deliver (obj gs) st) (lex rest)) (join_fields_nil (field k v fs) new))

    items-read :
        (vs : Items F) (b : Text) (ws : Items F) (st : List (Frame F)) (rest : Text)
        → AreReadable (suc (length st)) vs
        → dumps_items vs ≡ ok b
        → IsDelimited rest
        → parse (running separator (array_frame ws ∷ st)) (lex (b ++ rest))
          ≡ parse (deliver (arr (join_items ws vs)) st) (lex rest)
    items-read end_items b ws st rest r p d =
        rw (sym (ok-injective p))
          (parse-mark 93 close_array separator _ (deliver (arr ws) st) rest (refl, refl, refl) refl)
    items-read (item v vs) b ws st rest r p d =
        let (a, q, p') = >>=-eq-ok (dumps v) _ p in
        let (b', q', same) = >>=-eq-ok (dumps_items vs) _ p' in
        rw (sym (ok-injective same)) (
          parse-mark 44 comma separator (array_frame ws ∷ st) (running value (array_frame ws ∷ st))
            ((a ++ b') ++ rest) (refl, refl, refl) refl
          ∙ ap (λ u. parse (running value (array_frame ws ∷ st)) (lex u)) (append_assoc a b' rest)
          ∙ value-read v a value (array_frame ws ∷ st) (b' ++ rest) tt r.0 q
              (items-IsDelimited vs b' rest q')
          ∙ items-read vs b' (append_item v ws) st rest r.1 q' d)

    fields-read :
        (fs : Fields F) (b : Text) (gs : Fields F) (j : Text) (st : List (Frame F)) (rest : Text)
        → AreFieldsReadable (suc (length st)) fs
        → dumps_fields fs ≡ ok b
        → IsDelimited rest
        → parse (running separator (object_frame gs j ∷ st)) (lex (b ++ rest))
          ≡ parse (deliver (obj (join_fields gs fs)) st) (lex rest)
    fields-read end_fields b gs j st rest r p d =
        rw (sym (ok-injective p)) (
          parse-mark 125 close_object separator _ (deliver (obj gs) st) rest (refl, refl, refl)
            refl)
    fields-read (field k v fs) b gs j st rest r p d =
        let (a, q, p') = >>=-eq-ok (dumps v) _ p in
        let (b', q', same) = >>=-eq-ok (dumps_fields fs) _ p' in
        let (named_well, first, later) = r in
        rw (sym (ok-injective same)) (
          parse-mark 44 comma separator (object_frame gs j ∷ st)
            (running key (object_frame gs j ∷ st)) ((quote k ++ 58 ∷ (a ++ b')) ++ rest)
            (refl, refl, refl) refl
          ∙ ap (λ u. parse (running key (object_frame gs j ∷ st)) (lex u))
              (member_assoc k a b' rest)
          ∙ key-read k j key gs st (a ++ (b' ++ rest)) refl named_well
          ∙ value-read v a value (object_frame gs k ∷ st) (b' ++ rest) tt first q
              (fields-IsDelimited fs b' rest q')
          ∙ fields-read fs b' (set_field k v gs) k st rest later q' d)

  -- A value that can be encoded is read back from its text: where its texts have no surrogates,
  -- its doubles are read back from their `repr`, no object repeats a key, and the nesting is
  -- within the recursion limit.
  pub loads-dumps : (v : Json F) (t : Text) → IsReadable 0 v → dumps v ≡ ok t → loads t ≡ ok v
  unfolding loads result
  loads-dumps v t r p =
      ap (λ u. result (parse (running value []) (lex u))) (sym (append-nil t))
      ∙ ap result (value-read v t value [] [] tt r p tt)
