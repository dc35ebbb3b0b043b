-- ===== src/Translations/Verdict.antt =====
-- scripts/check-translations.py: `main`, which ends by `SystemExit` or returns. `repr` is `repr` of
-- a text or None.
pub mod Laws
use ttop_desk.Prelude.{
  ℕ, Bool, true, false, not, ◌&&◌, ◌||◌, Option, none, some, List, [], ◌∷◌, ◌++◌, map, Text, text,
  text_eq, text_lt, member_text, length, if◌then◌else◌,
}
use ttop_desk.Python.Exceptions.{Result, ok}
use ttop_desk.Python.Exceptions
use ttop_desk.Python.Dict.{lookup, text_key}
use ttop_desk.Python.Sort.{sorted}
use ttop_desk.Python.Strings.{is_empty}
use ttop_desk.Release.Archives.{Exit, exits, done, ◌>>=◌}
use ttop_desk.Translations.Catalog.{po_messages}
use ttop_desk.Translations.Sources.{collect_sources}

abbrev pub Catalog : Type 0
Catalog = List (Text × Text)

abbrev pub keys : Catalog → List Text
keys catalog = map (λ m. m.0) catalog

-- `[t for t in ts if test(t)]`
unfoldable pub where_true : (Text → Bool) → List Text → List Text
where_true test [] = []
where_true test (t ∷ ts) = let rest = where_true test ts in if test t then t ∷ rest else rest

-- `not catalog.get(source)`
unfoldable pub is_untranslated : Catalog → Text → Bool
is_untranslated catalog source = elim (lookup source catalog) [
  | none ↦ true
  | some value ↦ is_empty value
]

-- `separator.join(texts)`
unfoldable pub joined_by : Text → List Text → Text
joined_by separator [] = []
joined_by separator (t ∷ []) = t
joined_by separator (t ∷ u ∷ ts) = t ++ separator ++ joined_by separator (u ∷ ts)

-- One item of `details`, if there is something to list.
unfoldable pub detail : Text → List Text → List Text
detail label [] = []
detail label (t ∷ ts) = (label ++ joined_by (text ", ") (t ∷ ts)) ∷ []

-- The end of the comparison, with these details.
unfoldable pub report : List Text → Exit (Unit {0})
report [] = done tt
report (d ∷ ds) = exits (joined_by (text "; ") (d ∷ ds))

unfoldable pub compare_sets : List Text → Catalog → Exit (Unit {0})
compare_sets sources catalog =
    let missing = sorted text_lt (where_true (λ s. not (member_text s (keys catalog))) sources) in
    let untranslated = sorted text_lt (where_true (is_untranslated catalog) sources) in
    let extra = sorted text_lt (where_true (λ k. not (member_text k sources)) (keys catalog)) in
    report (
      detail (text "missing: ") missing
      ++ (detail (text "untranslated: ") untranslated ++ detail (text "obsolete/unused: ") extra))

abbrev pub required_lookups : Catalog
required_lookups =
    (text "TEMPERATURE", text "TEMPERATUR")
    ∷ (text "NETWORK", text "NETZWERK")
    ∷ (text "DISK I/O", text "DATENTRÄGER-I/O")
    ∷ (text "FILESYSTEMS", text "DATEISYSTEME")
    ∷ (text "TOP PROCESSES", text "TOP-PROZESSE")
    ∷ (text "Backend unavailable", text "Backend nicht verfügbar")
    ∷ (text "No process data", text "Keine Prozessdaten")
    ∷ []

-- `found == expected`, where `found` may be None
unfoldable pub is_found : Option Text → Text → Bool
is_found none expected = false
is_found (some value) expected = text_eq value expected

module _ (repr : Option Text → Text) where
  -- The loop over the required lookups.
  unfoldable pub check_required : Catalog → Catalog → Exit (Unit {0})
  check_required [] catalog = done tt
  check_required ((source, expected) ∷ required) catalog =
      let rest = check_required required catalog in
      if is_found (lookup source catalog) expected
      then rest
      else exits (
          text "German lookup mismatch for "
          ++ repr (some source)
          ++ text ": "
          ++ repr (lookup source catalog))

  -- `main` from the two sets on: how many sources it reports.
  unfoldable pub check_catalog : List Text → Catalog → Exit ℕ
  check_catalog sources catalog = compare_sets sources catalog >>= λ _.
      check_required required_lookups catalog >>= λ _. done (length sources)

  -- `main` over the texts of the QML files and of the catalog
  unfoldable pub main : (Text → Result Text) → (ℕ → Bool) → List Text → Text → Result (Exit ℕ)
  main literal_eval is_alphanumeric files po =
      Exceptions.◌>>=◌ (collect_sources literal_eval is_alphanumeric [] files) (λ sources.
        Exceptions.◌>>=◌ (po_messages literal_eval po)
          (λ catalog. ok (check_catalog sources catalog)))
