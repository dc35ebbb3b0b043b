-- ===== src/Translations/Verdict/Laws.antt =====
-- Which sets of texts and catalogs `main` accepts.
use ttop_desk.Prelude.{
  ℕ, ◌≡◌, ◌↔◌, refl, sym, ap, Bool, true, false, not, Option, none, some, List, [], ◌∷◌, ◌++◌, Text,
  text, text_eq_iff, text_eq_self, text_lt, member_text, length, All, All-map, arith, Bool-cases,
  inl, inr, Option-cases,
}
use ttop_desk.Python.Dict.{lookup, text_key}
use ttop_desk.Python.Sort.{sorted}
use ttop_desk.Python.Sort.Laws.{sorted-eq_nil}
use ttop_desk.Python.Strings.{is_empty}
use ttop_desk.Release.Archives.{Exit, exits, done, ◌>>=◌}
use ttop_desk.Translations.Verdict.{
  Catalog, keys, where_true, is_untranslated, detail, report, compare_sets, required_lookups,
  is_found, check_required, check_catalog,
}

-- The source has a text in the catalog that is not empty.
abbrev pub HasText : Catalog → Text → Type 0
HasText catalog source =
    (value : Text) × (lookup source catalog ≡ some value) × (is_empty value ≡ false)

-- What the script is to find out.
pub record IsComplete (sources : List Text) (catalog : Catalog) : Type 0 where
  pub translated : All (HasText catalog) sources
  pub used : All (λ key. member_text key sources ≡ true) (keys catalog)
  pub required : All (λ m. lookup m.0 catalog ≡ some m.1) required_lookups

where_true_none :
    (test : Text → Bool) (ts : List Text) → All (λ t. test t ≡ false) ts → where_true test ts ≡ []
unfolding where_true
where_true_none test [] h = refl
where_true_none test (t ∷ ts) h = rw (h.0, where_true_none test ts h.1) refl

none-where_true :
    (test : Text → Bool) (ts : List Text) → where_true test ts ≡ [] → All (λ t. test t ≡ false) ts
unfolding where_true
none-where_true test [] h = tt
none-where_true test (t ∷ ts) h = elim (Bool-cases (test t)) [
  | inl e ↦ absurd (ground arith)
  | inr e ↦ (e, none-where_true test ts (ground arith))
]

nothing : (label : Text) (us : List Text) → detail label us ≡ [] → us ≡ []
unfolding detail
nothing label [] h = refl
nothing label (u ∷ us) h = cc

-- Nothing to list.
detail_none : (label : Text) (ts : List Text) → detail label (sorted text_lt ts) ≡ [] → ts ≡ []
detail_none label ts h = sorted-eq_nil text_lt ts (nothing label (sorted text_lt ts) h)

HasText-iff :
    (catalog : Catalog) (source : Text)
    → (is_untranslated catalog source ≡ false) ↔ HasText catalog source
unfolding is_untranslated
HasText-iff catalog source = (
  λ h. elim (Option-cases (lookup source catalog)) [
    | inl e ↦ absurd (ground arith)
    | inr (value, e) ↦ (value, e, ground arith)
  ],
  λ (value, e, full). rw (e, is_untranslated) full,
)

lookup→member :
    (catalog : Catalog) (source value : Text)
    → lookup source catalog ≡ some value
    → member_text source (keys catalog) ≡ true
unfolding lookup member_text
lookup→member [] source value h = cc
lookup→member ((key, v) ∷ catalog) source value h =
    ground (arith, lookup→member catalog source value)

is_found_iff :
    (found : Option Text) (expected : Text)
    → (is_found found expected ≡ true) ↔ (found ≡ some expected)
unfolding is_found
is_found_iff none expected = (λ h. cc, λ h. cc)
is_found_iff (some value) expected =
    (λ h. ap some ((text_eq_iff value expected).0 h), λ h. ground (arith, text_eq_self expected))

append_nil : (xs ys : List Text) → xs ++ ys ≡ [] → (xs ≡ []) × (ys ≡ [])
append_nil [] ys h = (refl, h)
append_nil (x ∷ xs) ys h = cc

report-done : (ds : List Text) → report ds ≡ done tt → ds ≡ []
unfolding report
report-done [] h = refl
report-done (d ∷ ds) h = cc

compare_sets-done :
    (sources : List Text) (catalog : Catalog)
    → compare_sets sources catalog ≡ done tt
    → All (HasText catalog) sources × All (λ key. member_text key sources ≡ true) (keys catalog)
unfolding compare_sets
compare_sets-done sources catalog h =
    let missing = where_true (λ s. not (member_text s (keys catalog))) sources in
    let untranslated = where_true (is_untranslated catalog) sources in
    let extra = where_true (λ key. not (member_text key sources)) (keys catalog) in
    let missing_detail = detail (text "missing: ") (sorted text_lt missing) in
    let untranslated_detail = detail (text "untranslated: ") (sorted text_lt untranslated) in
    let extra_detail = detail (text "obsolete/unused: ") (sorted text_lt extra) in
    let (_, rest) =
      append_nil missing_detail (untranslated_detail ++ extra_detail) (report-done _ h) in
    let (no_untranslated, no_extra) = append_nil untranslated_detail extra_detail rest in
    (
      All-map _ _ sources (λ s e. (HasText-iff catalog s).0 e)
          (none-where_true (is_untranslated catalog) sources
            (detail_none (text "untranslated: ") untranslated no_untranslated)),
      All-map _ _ (keys catalog) (λ key e. ground arith)
          (none-where_true (λ key. not (member_text key sources)) (keys catalog)
            (detail_none (text "obsolete/unused: ") extra no_extra)),
    )

compare_sets_complete :
    (sources : List Text) (catalog : Catalog)
    → All (HasText catalog) sources
    → All (λ key. member_text key sources ≡ true) (keys catalog)
    → compare_sets sources catalog ≡ done tt
unfolding compare_sets detail sorted report
compare_sets_complete sources catalog h k =
    rw
      (
        where_true_none (λ s. not (member_text s (keys catalog))) sources
            (All-map (HasText catalog) _ sources
              (λ s (value, e, _). rw (lookup→member catalog s value e) refl) h),
        where_true_none (is_untranslated catalog) sources
            (All-map (HasText catalog) _ sources (λ s t. (HasText-iff catalog s).1 t) h),
        where_true_none (λ key. not (member_text key sources)) (keys catalog)
            (All-map _ _ (keys catalog) (λ key e. rw e refl) k),
      )
      refl

module _ (repr : Option Text → Text) where
  check_required-done :
      (required catalog : Catalog)
      → (check_required repr required catalog ≡ done tt)
        ↔ All (λ m. lookup m.0 catalog ≡ some m.1) required
  unfolding check_required
  check_required-done [] catalog = (λ h. tt, λ h. refl)
  check_required-done ((source, expected) ∷ required) catalog =
      ground
        (arith, is_found_iff (lookup source catalog) expected, check_required-done required catalog)

  Exit-bind_done :
      (first : Exit (Unit {0})) (next : Exit ℕ) (n : ℕ)
      → (first >>= λ _. next) ≡ done n
      → (first ≡ done tt) × (next ≡ done n)
  Exit-bind_done (done tt) next n h = (refl, h)
  Exit-bind_done (exits message) next n h = cc

  -- The check of the translations succeeds, and reports that many sources, exactly when every
  -- source has a text in the catalog that is not empty, every message of the catalog is a source,
  -- and the required messages have their texts.
  pub check_catalog_iff :
      (sources : List Text) (catalog : Catalog) (n : ℕ)
      → (check_catalog repr sources catalog ≡ done n)
        ↔ (IsComplete sources catalog × (n ≡ length sources))
  unfolding check_catalog
  check_catalog_iff sources catalog n = (
    λ h.
        let (same, h₁) = Exit-bind_done (compare_sets sources catalog) _ n h in
        let (found, last) = Exit-bind_done (check_required repr required_lookups catalog) _ n h₁ in
        let (translated, used) = compare_sets-done sources catalog same in
        (
          record {
            translated = translated;
            used = used;
            required = (check_required-done required_lookups catalog).0 found;
          },
          ground arith,
        ),
    λ (complete, e).
        rw
          (
            compare_sets_complete sources catalog complete.translated complete.used,
            (check_required-done required_lookups catalog).1 complete.required,
          )
          (ap done (sym e)),
  )
