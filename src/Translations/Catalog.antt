-- ===== src/Translations/Catalog.antt =====
-- scripts/check-translations.py: `po_messages`. `literal_eval` is `ast.literal_eval` of a string
-- literal.
pub mod Roundtrip
use ttop_desk.Prelude.{
  ℕ, Bool, true, false, Option, none, some, List, [], ◌∷◌, ◌++◌, Text, text, starts_with,
  if◌then◌else◌,
}
use ttop_desk.Python.Exceptions.{Result, ok, ◌>>=◌}
use ttop_desk.Python.Dict.{insert, text_key}
use ttop_desk.Python.Strings.{is_empty, strip}
use ttop_desk.Release.Validation.{drop, splitlines}

-- `current_field`, where None is `no_field`
pub data Field : Type 0 where
  no_field id_field value_field : Field

-- The local variables of `po_messages`.
pub record Reader : Type 0 where
  pub messages : List (Text × Text)
  pub current_field : Field
  pub current_id : Text
  pub current_value : Text

unfoldable pub reader_start : Reader
reader_start = record {
  messages = [];
  current_field = no_field;
  current_id = [];
  current_value = [];
}

-- `finish`
unfoldable pub finish : Reader → Reader
finish r = record {
  messages =
      if is_empty r.current_id then r.messages else insert r.current_id r.current_value r.messages;
  current_field = r.current_field;
  current_id = [];
  current_value = [];
}

-- A line that goes on with the text of the field before it.
unfoldable pub continued : Reader → Text → Reader
continued r part = elim r.current_field [
  | id_field ↦ record r { current_id = r.current_id ++ part }
  | value_field ↦ record r { current_value = r.current_value ++ part }
  | no_field ↦ r
]

module _ (literal_eval : Text → Result Text) where
  -- The body of the loop, after `strip`.
  unfoldable pub read_stripped : Reader → Text → Result Reader
  read_stripped r line =
      if starts_with (text "msgid ") line
      then (literal_eval (drop 6 line) >>= λ id.
          ok (record (finish r) { current_field = id_field; current_id = id }))
      else if starts_with (text "msgstr ") line
      then (literal_eval (drop 7 line) >>= λ value.
          ok (record r { current_field = value_field; current_value = value }))
      else if starts_with (text "\"") line
      then (literal_eval line >>= λ part. ok (continued r part))
      else if is_empty line
      then ok (record (finish r) { current_field = no_field })
      else ok r

  unfoldable pub read_lines : Reader → List Text → Result Reader
  read_lines r [] = ok r
  read_lines r (raw_line ∷ lines) = read_stripped r (strip raw_line) >>= λ r'. read_lines r' lines

  unfoldable pub po_messages : Text → Result (List (Text × Text))
  po_messages content = do
    r ← read_lines reader_start (splitlines content ++ [] ∷ [])
    ok r.messages
