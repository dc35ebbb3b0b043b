-- ===== src/Json/Decode/Readable.antt =====
-- Values that `json.loads` reads back from their text, and how its machine takes single tokens.
use mathlib.Core.Path.{subst}
use ttop_desk.Prelude.{
  true, ℕ, suc, ◌<◌, ◌≡◌, refl, ap, ◌∙◌, false, some, List, [], ◌∷◌, ◌++◌, Text, text_eq, All, ◌==◌,
}
use ttop_desk.Python.Runtime.{finite, Runtime}
use ttop_desk.Json.{
  Json, null, bool, int, float, str, arr, obj, Items, end_items, item, Fields, end_fields, field,
}
use ttop_desk.Json.Lexer.{
  Token, open_object, close_object, open_array, close_array, comma, colon, bad, string, word, mark,
  is_space, lex,
}
use ttop_desk.Json.Lexer.Strings.{IsScalar}
use ttop_desk.Json.Lexer.Words.{IsWordChar, IsDelimited, lex-word, lex-mark}
use ttop_desk.Json.Encode.{int_text}
use ttop_desk.Json.Decode.{
  Frame, array_frame, object_frame, Expect, value_or_close_array, value, key_or_close_object, key,
  after_key, separator, State, running, finished, raised, append_item, set_field, scalar,
  has_few_digits, deliver, enter, close, begin, named, continue, step, next, parse, result, loads,
}

-- A value may stand here.
abbrev pub IsForValue : Expect → Type 0
IsForValue value = Unit
IsForValue value_or_close_array = Unit
IsForValue _ = ⊥

abbrev pub IsOpening : Token → Type 0
IsOpening open_object = Unit
IsOpening open_array = Unit
IsOpening (string _) = Unit
IsOpening (word _) = Unit
IsOpening _ = ⊥

module _ {F : Type 0} where
  -- No field has the key.
  abbrev pub LacksKey : Text → Fields F → Type 0
  LacksKey k end_fields = Unit
  LacksKey k (field j _ fs) = (text_eq j k ≡ false) × LacksKey k fs

  -- No key is repeated, nor is it that of a field before.
  unfoldable pub AreNew : Fields F → Fields F → Type 0
  AreNew before end_fields = Unit
  AreNew before (field k v fs) = LacksKey k before × AreNew (set_field k v before) fs

  -- What the frame of an array or of an object holds in the end.
  unfoldable pub join_items : Items F → Items F → Items F
  join_items ws end_items = ws
  join_items ws (item v vs) = join_items (append_item v ws) vs

  unfoldable pub join_fields : Fields F → Fields F → Fields F
  join_fields gs end_fields = gs
  join_fields gs (field k v fs) = join_fields (set_field k v gs) fs

  pub join_items-item :
      (w : Json F) (ws vs : Items F) → join_items (item w ws) vs ≡ item w (join_items ws vs)
  unfolding join_items append_item
  join_items-item w ws end_items = refl
  join_items-item w ws (item v vs) = join_items-item w (append_item v ws) vs

  pub join_items_nil : (vs : Items F) → join_items end_items vs ≡ vs
  unfolding join_items append_item
  join_items_nil end_items = refl
  join_items_nil (item v vs) = join_items-item v end_items vs ∙ ap (item v) (join_items_nil vs)

  set_field-field :
      (j k : Text) (w v : Json F) (gs : Fields F)
      → text_eq j k ≡ false
      → set_field k v (field j w gs) ≡ field j w (set_field k v gs)
  unfolding set_field
  set_field-field j k w v gs e = rw e refl

  join_fields-field :
      (j : Text) (w : Json F) (gs fs : Fields F)
      → AreNew (field j w gs) fs
      → (join_fields (field j w gs) fs ≡ field j w (join_fields gs fs)) × AreNew gs fs
  unfolding join_fields AreNew
  join_fields-field j w gs end_fields h = (refl, tt)
  join_fields-field j w gs (field k v fs) ((e, l), h) =
      let same = set_field-field j k w v gs e in
      let (joined, new) =
        join_fields-field j w (set_field k v gs) fs (subst (λ g. AreNew g fs) same h) in
      (ap (λ g. join_fields g fs) same ∙ joined, (l, new))

  pub join_fields_nil : (fs : Fields F) → AreNew end_fields fs → join_fields end_fields fs ≡ fs
  unfolding join_fields AreNew set_field
  join_fields_nil end_fields h = refl
  join_fields_nil (field k v fs) (_, h) =
      let (joined, new) = join_fields-field k v end_fields fs h in
      joined ∙ ap (field k v) (join_fields_nil fs new)

module _ {F : Type 0} ⦃n : Runtime F⦄ where
  -- The text of the double is one numeral, and read as the double.
  abbrev pub IsReadBack : F → Type 0
  IsReadBack a = All IsWordChar (n.repr a) × (scalar (n.repr a) ≡ some (float (finite a)))

  -- The texts have no surrogates, the integers no more than 4300 digits, the doubles are read back,
  -- no key is repeated, and the nesting, under so many open arrays and objects, is not deeper than
  -- the interpreter recurses.
  unfoldable mutual
    pub IsReadable : ℕ → Json F → Type 0
    IsReadable level (str s) = All IsScalar s
    IsReadable level (int z) = has_few_digits (int_text z) ≡ true
    IsReadable level (float (finite a)) = IsReadBack a
    IsReadable level (arr vs) = (level < n.recursion_limit) × AreReadable (suc level) vs
    IsReadable level (obj fs) =
        (level < n.recursion_limit) × AreNew end_fields fs × AreFieldsReadable (suc level) fs
    IsReadable level _ = Unit

    pub AreReadable : ℕ → Items F → Type 0
    AreReadable level end_items = Unit
    AreReadable level (item v vs) = IsReadable level v × AreReadable level vs

    pub AreFieldsReadable : ℕ → Fields F → Type 0
    AreFieldsReadable level end_fields = Unit
    AreFieldsReadable level (field k v fs) =
        All IsScalar k × IsReadable level v × AreFieldsReadable level fs

  pub step-begin :
      (e : Expect) (t : Token) (st : List (Frame F))
      → IsForValue e
      → IsOpening t
      → step e t st ≡ begin t st
  unfolding step
  step-begin value t st h k = refl
  step-begin value_or_close_array open_object st h k = refl
  step-begin value_or_close_array open_array st h k = refl
  step-begin value_or_close_array (string s) st h k = refl
  step-begin value_or_close_array (word w) st h k = refl
  step-begin value_or_close_array close_object st h k = absurd k
  step-begin value_or_close_array close_array st h k = absurd k
  step-begin value_or_close_array comma st h k = absurd k
  step-begin value_or_close_array colon st h k = absurd k
  step-begin value_or_close_array bad st h k = absurd k
  step-begin key_or_close_object t st h k = absurd h
  step-begin key t st h k = absurd h
  step-begin after_key t st h k = absurd h
  step-begin separator t st h k = absurd h

  pub parse-token :
      (e : Expect) (t : Token) (st : List (Frame F)) (reached : State F) (s rest : Text)
      → lex s ≡ t ∷ lex rest
      → step e t st ≡ reached
      → parse (running e st) (lex s) ≡ parse reached (lex rest)
  unfolding parse next
  parse-token e t st reached s rest l p =
      ap (parse (running e st)) l ∙ ap (λ r. parse r (lex rest)) p

  pub parse-mark :
      (c : ℕ) (t : Token) (e : Expect) (st : List (Frame F)) (reached : State F) (rest : Text)
      → ((c == 34) ≡ false) × (is_space c ≡ false) × (mark c ≡ some t)
      → step e t st ≡ reached
      → parse (running e st) (lex (c ∷ rest)) ≡ parse reached (lex rest)
  parse-mark c t e st reached rest (a, b, d) p =
      parse-token e t st reached (c ∷ rest) rest (lex-mark c t rest a b d) p

  scalar_nil : (v : Json F) → ¬ (scalar [] ≡ some v)
  unfolding scalar text_eq ttop_desk.Json.Decode.number ttop_desk.Json.Decode.numeral
  scalar_nil v h = cc

  pub word-read :
      (w : Text) (v : Json F) (e : Expect) (st : List (Frame F)) (rest : Text)
      → IsForValue e
      → All IsWordChar w
      → scalar w ≡ some v
      → IsDelimited rest
      → parse (running e st) (lex (w ++ rest)) ≡ parse (deliver v st) (lex rest)
  unfolding begin
  word-read [] v e st rest h ws s d = absurd (scalar_nil v s)
  word-read (c ∷ w) v e st rest h ws s d =
      parse-token e (word (c ∷ w)) st (deliver v st) ((c ∷ w) ++ rest) rest (lex-word c w rest ws d)
        (step-begin e (word (c ∷ w)) st h tt ∙ rw (s, begin) refl)
