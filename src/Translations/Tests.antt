-- ===== src/Translations/Tests.antt =====
-- The theorems on translations, at small catalogs and sources.
use ttop_desk.Prelude.{
  ℕ, ◌+◌, ◌-◌, ◌≡◌, ◌↔◌, refl, ap, ◌∙◌, Bool, true, false, Option, none, some, List, [], ◌∷◌, ◌++◌,
  map, Text, text, All, arith, ltb, text_eq, length, if◌then◌else◌,
}
use ttop_desk.Python.Exceptions.{Result, ok}
use ttop_desk.Release.Archives.{done}
use ttop_desk.Release.Validation.{is_line_break}
use ttop_desk.Translations.Catalog.{po_messages}
use ttop_desk.Translations.Catalog.Roundtrip.{
  Message, put_all, printed_all, unlines, quoted, IsSingleLine, po_messages-printed,
}
use ttop_desk.Translations.Sources.{find_sources}
use ttop_desk.Translations.Sources.Occurrences.{Finds, find_sources-Finds}
use ttop_desk.Translations.Verdict.{Catalog, keys, required_lookups, check_catalog}
use ttop_desk.Translations.Verdict.Laws.{IsComplete, check_catalog_iff}

-- A way to write any text without a line break, and the reader for it.
shifted : Text → Text
shifted [] = []
shifted (c ∷ t) = (c + 100000) ∷ shifted t

shifted_back : Text → Text
shifted_back [] = []
shifted_back (c ∷ t) =
    let rest = shifted_back t in if ltb c 100000 then rest else (c - 100000) ∷ rest

reading_shifted : Text → Result Text
reading_shifted t = ok (shifted_back t)

shifted_back-shifted : (t : Text) → shifted_back (shifted t ++ text "\"") ≡ t
unfolding shifted_back shifted
shifted_back-shifted [] = refl
shifted_back-shifted (c ∷ t) = ground (arith, shifted_back-shifted t)

shifted_evaluated : (t : Text) → reading_shifted (quoted shifted t) ≡ ok t
unfolding reading_shifted shifted_back
shifted_evaluated t = ap ok (shifted_back-shifted t)

shifted_single : (t : Text) → IsSingleLine (shifted t)
unfolding shifted is_line_break
shifted_single [] = tt
shifted_single (c ∷ t) = (ground arith, shifted_single t)

abbrev messages : List Message
messages =
    record { id = []; id_parts = []; value = text "Project"; value_parts = text "-Id" ∷ [] }
    ∷ record {
      id = text "NET";
      id_parts = text "WORK" ∷ [];
      value = text "NETZ";
      value_parts = text "WERK" ∷ [];
    }
    ∷ []

messages_put : put_all [] messages ≡ (text "NETWORK", text "NETZWERK") ∷ []
unfolding put_all ttop_desk.Translations.Catalog.Roundtrip.concatenated ttop_desk.Python.Dict.insert
    text_eq
messages_put = refl

po_messages-printed_example :
    po_messages reading_shifted (unlines (printed_all shifted messages)) ≡ ok (put_all [] messages)
po_messages-printed_example =
    po_messages-printed reading_shifted shifted shifted_evaluated shifted_single messages

abbrev is_letter : ℕ → Bool
is_letter c = if ltb c 97 then false else ltb c 123

abbrev qml : Text
qml = text "text: ttopTr( \"a\\\"b\") + nottopTr(\"c\") + ttopTr(\"\")"

sources_found : find_sources is_letter qml ≡ text "a\\\"b" ∷ [] ∷ []
unfolding find_sources ttop_desk.Translations.Sources.find_calls
    ttop_desk.Translations.Sources.match_call ttop_desk.Prelude.starts_with
    ttop_desk.Python.Strings.strip_left ttop_desk.Release.Validation.drop
    ttop_desk.Translations.Sources.match_string ttop_desk.Translations.Sources.longer
sources_found = refl

find_sources-Finds_example : Finds is_letter false qml (find_sources is_letter qml)
find_sources-Finds_example = find_sources-Finds is_letter qml

abbrev question_mark : Option Text → Text
question_mark _ = text "?"

catalog_accepted : check_catalog question_mark (keys required_lookups) required_lookups ≡ done 7
unfolding check_catalog ttop_desk.Translations.Verdict.compare_sets
    ttop_desk.Translations.Verdict.report ttop_desk.Translations.Verdict.detail
    ttop_desk.Python.Sort.sorted ttop_desk.Translations.Verdict.where_true
    ttop_desk.Prelude.member_text ttop_desk.Translations.Verdict.is_untranslated
    ttop_desk.Python.Dict.lookup ttop_desk.Translations.Verdict.check_required
    ttop_desk.Translations.Verdict.is_found
catalog_accepted = refl

check_catalog_iff_example :
    IsComplete (keys required_lookups) required_lookups × (7 ≡ length (keys required_lookups))
check_catalog_iff_example =
    (check_catalog_iff question_mark (keys required_lookups) required_lookups 7).0 catalog_accepted
