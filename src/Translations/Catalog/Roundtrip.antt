-- ===== src/Translations/Catalog/Roundtrip.antt =====
-- A catalog that is printed as `xgettext` prints it is read as the catalog it was.
use mathlib.Core.List.{reverse, reverse-append, reverse-reverse}
use ttop_desk.Prelude.{
  ℕ, ◌≡◌, refl, sym, ap, ◌∙◌, false, List, [], ◌∷◌, ◌++◌, map, Text, text, All, All-append, arith,
  ◌==◌, if◌then◌else◌, starts_with,
}
use ttop_desk.Python.Exceptions.{Result, ok, ◌>>=◌, Result-cases, is_ok, is_err}
use ttop_desk.Python.Dict.{insert, text_key}
use ttop_desk.Python.Strings.{is_empty, is_whitespace, strip, strip_left}
use ttop_desk.Release.Validation.{drop, splitlines, is_line_break}
use ttop_desk.Release.Paths.{prepend}
use ttop_desk.Translations.Catalog.{
  Field, no_field, id_field, value_field, Reader, reader_start, finish, continued, read_stripped,
  read_lines, po_messages,
}

-- One message: the parts of its id and of its text, at least one each.
pub record Message : Type 0 where
  pub id : Text
  pub id_parts : List Text
  pub value : Text
  pub value_parts : List Text

-- The parts as one text.
unfoldable pub concatenated : Text → List Text → Text
concatenated t [] = t
concatenated t (part ∷ parts) = concatenated (t ++ part) parts

-- The dict that the messages make, where an empty id (the header) is left out.
unfoldable pub put_all : List (Text × Text) → List Message → List (Text × Text)
put_all d [] = d
put_all d (m ∷ ms) =
    put_all
      (if is_empty (concatenated m.id m.id_parts)
        then d
        else insert (concatenated m.id m.id_parts) (concatenated m.value m.value_parts) d)
      ms

-- `escape` writes what stands between the quotes.
module _ (escape : Text → Text) where
  abbrev pub quoted : Text → Text
  quoted t = b'"' ∷ escape t ++ text "\""

  -- The lines of a message, an empty one, and the lines after it.
  pub printed : Message → List Text → List Text
  printed m rest =
      (text "msgid " ++ quoted m.id)
      ∷ (map quoted m.id_parts
          ++ (text "msgstr " ++ quoted m.value) ∷ (map quoted m.value_parts ++ [] ∷ rest))

  pub printed_all : List Message → List Text
  printed_all [] = []
  printed_all (m ∷ ms) = printed m (printed_all ms)

-- The lines, each with its line feed.
pub unlines : List Text → Text
unlines [] = []
unlines (line ∷ lines) = line ++ 10 ∷ unlines lines

abbrev pub IsSingleLine : Text → Type 0
IsSingleLine = All (λ c. is_line_break c ≡ false)

no_return : (c : ℕ) → is_line_break c ≡ false → (c == 13) ≡ false
unfolding is_line_break
no_return c h = ground arith

splitlines-append :
    (line rest : Text) → IsSingleLine line → splitlines (line ++ 10 ∷ rest) ≡ line ∷ splitlines rest
unfolding splitlines prepend is_line_break
splitlines-append [] rest h = refl
splitlines-append (c ∷ line) rest h =
    rw (no_return c h.0, h.0, splitlines-append line rest h.1) refl

splitlines-unlines :
    (lines : List Text) → All IsSingleLine lines → splitlines (unlines lines) ≡ lines
unfolding splitlines unlines
splitlines-unlines [] h = refl
splitlines-unlines (line ∷ lines) h =
    splitlines-append line (unlines lines) h.0 ∙ ap (◌∷◌ line) (splitlines-unlines lines h.1)

-- A text between two characters that are no white space is left as it is.
strip_closed :
    (c d : ℕ) (t : Text)
    → is_whitespace c ≡ false
    → is_whitespace d ≡ false
    → strip (c ∷ t ++ d ∷ []) ≡ c ∷ t ++ d ∷ []
unfolding strip strip_left
strip_closed c d t h k =
    let back : reverse (c ∷ t ++ d ∷ []) ≡ d ∷ reverse (c ∷ t) = reverse-append (c ∷ t) (d ∷ []) in
    rw (h, back, k) (ap reverse (sym back) ∙ reverse-reverse (c ∷ t ++ d ∷ []))

abbrev reading : List (Text × Text) → Field → Text → Text → Reader
reading d field id value = record {
  messages = d;
  current_field = field;
  current_id = id;
  current_value = value;
}

module _ (literal_eval : Text → Result Text) (escape : Text → Text)
    (eval : (t : Text) → literal_eval (quoted escape t) ≡ ok t) (d : List (Text × Text)) where
  read_id :
      (id : Text) (rest : List Text)
      → read_lines literal_eval
          (reading d no_field [] [])
          ((text "msgid " ++ quoted escape id) ∷ rest)
        ≡ read_lines literal_eval (reading d id_field id []) rest
  unfolding read_lines read_stripped starts_with drop finish is_whitespace
  read_id id rest =
      rw (strip_closed b'm' b'"' (text "sgid \"" ++ escape id) refl refl, eval id) refl

  read_id_parts :
      (id : Text) (parts rest : List Text)
      → read_lines literal_eval (reading d id_field id []) (map (quoted escape) parts ++ rest)
        ≡ read_lines literal_eval (reading d id_field (concatenated id parts) []) rest
  unfolding read_lines read_stripped starts_with drop continued concatenated is_whitespace
  read_id_parts id [] rest = refl
  read_id_parts id (part ∷ parts) rest =
      rw (strip_closed b'"' b'"' (escape part) refl refl, eval part)
        (read_id_parts (id ++ part) parts rest)

  read_value :
      (id value : Text) (rest : List Text)
      → read_lines literal_eval
          (reading d id_field id [])
          ((text "msgstr " ++ quoted escape value) ∷ rest)
        ≡ read_lines literal_eval (reading d value_field id value) rest
  unfolding read_lines read_stripped starts_with drop is_whitespace
  read_value id value rest =
      rw (strip_closed b'm' b'"' (text "sgstr \"" ++ escape value) refl refl, eval value) refl

  read_value_parts :
      (id value : Text) (parts rest : List Text)
      → read_lines literal_eval (reading d value_field id value) (map (quoted escape) parts ++ rest)
        ≡ read_lines literal_eval (reading d value_field id (concatenated value parts)) rest
  unfolding read_lines read_stripped starts_with drop continued concatenated is_whitespace
  read_value_parts id value [] rest = refl
  read_value_parts id value (part ∷ parts) rest =
      rw (strip_closed b'"' b'"' (escape part) refl refl, eval part)
        (read_value_parts id (value ++ part) parts rest)

  read_message :
      (m : Message) (rest : List Text)
      → read_lines literal_eval (reading d no_field [] []) (printed escape m rest)
        ≡ read_lines literal_eval (reading (put_all d (m ∷ [])) no_field [] []) rest
  unfolding printed put_all read_lines read_stripped finish starts_with strip
  read_message m rest =
      let end = [] ∷ rest in
      let values = map (quoted escape) m.value_parts ++ end in
      let after_id = (text "msgstr " ++ quoted escape m.value) ∷ values in
      let id = concatenated m.id m.id_parts in
      let value = concatenated m.value m.value_parts in
      let last : read_lines literal_eval (reading d value_field id value) end
          ≡ read_lines literal_eval (reading (put_all d (m ∷ [])) no_field [] []) rest =
        refl in
      read_id m.id (map (quoted escape) m.id_parts ++ after_id)
      ∙ read_id_parts m.id m.id_parts after_id
      ∙ read_value id m.value values
      ∙ read_value_parts id m.value m.value_parts end
      ∙ last

read_lines-append :
    (literal_eval : Text → Result Text) (r : Reader) (front back : List Text)
    → read_lines literal_eval r (front ++ back)
      ≡ (read_lines literal_eval r front >>= λ r'. read_lines literal_eval r' back)
unfolding read_lines
read_lines-append literal_eval r [] back = refl
read_lines-append literal_eval r (line ∷ front) back =
    elim (Result-cases (read_stripped literal_eval r (strip line))) [
      | is_ok r' e ↦ rw e (read_lines-append literal_eval r' front back)
      | is_err x e ↦ rw e refl
    ]

module _ (literal_eval : Text → Result Text) (escape : Text → Text)
    (eval : (t : Text) → literal_eval (quoted escape t) ≡ ok t)
    (single : (t : Text) → IsSingleLine (escape t)) where
  read_messages :
      (d : List (Text × Text)) (ms : List Message)
      → read_lines literal_eval (reading d no_field [] []) (printed_all escape ms)
        ≡ ok (reading (put_all d ms) no_field [] [])
  unfolding printed_all put_all read_lines
  read_messages d [] = refl
  read_messages d (m ∷ ms) =
      read_message literal_eval escape eval d m (printed_all escape ms)
      ∙ read_messages (put_all d (m ∷ [])) ms

  quoted-IsSingleLine : (t : Text) → IsSingleLine (quoted escape t)
  unfolding is_line_break
  quoted-IsSingleLine t = (refl, All-append _ (escape t) (text "\"") (single t) (refl, tt))

  parts-AllSingle :
      (ts : List Text) (rest : List Text)
      → All IsSingleLine rest
      → All IsSingleLine (map (quoted escape) ts ++ rest)
  parts-AllSingle [] rest h = h
  parts-AllSingle (t ∷ ts) rest h = (quoted-IsSingleLine t, parts-AllSingle ts rest h)

  printed_all-AllSingle : (ms : List Message) → All IsSingleLine (printed_all escape ms)
  unfolding printed_all printed is_line_break
  printed_all-AllSingle [] = tt
  printed_all-AllSingle (m ∷ ms) = (
    (refl, (refl, (refl, (refl, (refl, (refl, quoted-IsSingleLine m.id)))))),
    parts-AllSingle m.id_parts _ (
      (refl, (refl, (refl, (refl, (refl, (refl, (refl, quoted-IsSingleLine m.value))))))),
      parts-AllSingle m.value_parts ([] ∷ printed_all escape ms) (tt, printed_all-AllSingle ms),
    ),
  )

  -- Where `literal_eval` reads what `escape` writes between quotes, and that has no line break,
  -- `po_messages` reads a printed catalog as the dict of its messages, whatever their parts are; a
  -- message with an empty id, the header, is left out.
  pub po_messages-printed :
      (ms : List Message)
      → po_messages literal_eval (unlines (printed_all escape ms)) ≡ ok (put_all [] ms)
  unfolding po_messages reader_start read_lines read_stripped finish starts_with strip
  po_messages-printed ms =
      rw
        (
          splitlines-unlines (printed_all escape ms) (printed_all-AllSingle ms),
          read_lines-append literal_eval reader_start (printed_all escape ms) ([] ∷ []),
          read_messages [] ms,
        )
        refl
