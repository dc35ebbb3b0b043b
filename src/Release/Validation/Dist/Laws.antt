-- ===== src/Release/Validation/Dist/Laws.antt =====
-- What the checks of sets, payloads and the plasmoid let pass.
use ttop_desk.Prelude.{
  ℕ, ◌≡◌, ap, ◌∙◌, Bool, true, false, not, ◌++◌, some, List, [], ◌∷◌, Text, text, text_eq_iff,
  member_text, starts_with, contains_text, All, arith,
}
use ttop_desk.Python.Exceptions.{
  Result, ok, os_error, value_error, other_error, assertion_error, or_raise, or_raise-eq_ok,
  raise_if-passed, >>=-eq-ok,
}
use ttop_desk.Python.Dict.{lookup, text_key}
use ttop_desk.Python.Runtime.{Runtime}
use ttop_desk.Python.Strings.{decode_utf8}
use ttop_desk.Json.{Json, str}
use ttop_desk.Json.Decode.{loads}
use ttop_desk.Release.Archives.{ZipMember}
use ttop_desk.Release.Archives.Entries.{
  Files, any_text, zip_entries, assert_portable_bytes, forbidden_bytes, any_contained,
}
use ttop_desk.Release.Validation.{file_at}
use ttop_desk.Release.Validation.Dist.{
  plasmoid_name, names_of, is_subset, same_set, assert_all_portable, required_plasmoid, subscript,
  equals_text, validate_plasmoid,
}

pub any_text-none :
    (test : Text → Bool) (ts : List Text) → any_text test ts ≡ false → All (λ t. test t ≡ false) ts
unfolding any_text
any_text-none test [] h = tt
any_text-none test (t ∷ ts) h = (ground arith, any_text-none test ts (ground arith))

-- Every text of the first list is in the second.
abbrev pub Within : List Text → List Text → Type 0
Within xs ys = All (λ x. member_text x ys ≡ true) xs

pub is_subset→Within : (xs ys : List Text) → not (is_subset xs ys) ≡ false → Within xs ys
unfolding is_subset any_text
is_subset→Within [] ys h = tt
is_subset→Within (x ∷ xs) ys h = (ground arith, is_subset→Within xs ys (ground arith))

pub same_set→Within :
    (xs ys : List Text) → not (same_set xs ys) ≡ false → Within xs ys × Within ys xs
unfolding same_set
same_set→Within xs ys h =
    (is_subset→Within xs ys (ground arith), is_subset→Within ys xs (ground arith))

-- No payload contains a forbidden path or one of the needles.
abbrev pub IsPortable : List (List ℕ) → List ℕ → Type 0
IsPortable extra_needles payload =
    All (λ needle. contains_text needle payload ≡ false) (forbidden_bytes ++ extra_needles)

any_contained-none :
    (needles : List (List ℕ)) (payload : List ℕ)
    → any_contained needles payload ≡ false
    → All (λ needle. contains_text needle payload ≡ false) needles
unfolding any_contained
any_contained-none [] payload h = tt
any_contained-none (n ∷ ns) payload h = (ground arith, any_contained-none ns payload (ground arith))

pub assert_all_portable-ok :
    (files : Files) (needles : List (List ℕ))
    → assert_all_portable files needles ≡ ok tt
    → All (λ f. IsPortable needles f.1) files
unfolding assert_all_portable assert_portable_bytes
assert_all_portable-ok [] needles h = tt
assert_all_portable-ok ((name, payload) ∷ files) needles h =
    let (clean, rest) =
      raise_if-passed (any_contained (forbidden_bytes ++ needles) payload) assertion_error _ h in
    (
      any_contained-none (forbidden_bytes ++ needles) payload clean,
      assert_all_portable-ok files needles rest,
    )

module _ (F : Type 0) where
  pub equals_text-true : (v : Json F) (t : Text) → not (equals_text v t) ≡ false → v ≡ str t
  unfolding equals_text
  equals_text-true (str s) t h = ap str ((text_eq_iff s t).0 (ground arith))
  equals_text-true _ t h = cc

module _ (F : Type 0) ⦃n : Runtime F⦄ (open_zip : List ℕ → Result (List ZipMember)) where
  -- A plasmoid whose metadata has the version.
  pub record IsPlasmoid (dist : Files) (version : Text) (needles : List (List ℕ)) : Type 0 where
    pub bytes : List ℕ
    pub archive : List ZipMember
    pub entries : Files
    pub metadata : List ℕ
    pub decoded : Text
    pub packaged : Json F
    pub plugin : Json F
    pub is_file : file_at dist (plasmoid_name version) ≡ some bytes
    pub is_archive : open_zip bytes ≡ ok archive
    pub are_entries : zip_entries archive ≡ ok entries
    pub is_complete : Within required_plasmoid (names_of entries)
    pub is_metadata : lookup (text "metadata.json") entries ≡ some metadata
    pub is_utf8 : decode_utf8 metadata ≡ some decoded
    pub is_json : loads decoded ≡ ok packaged
    pub is_plugin : subscript packaged (text "KPlugin") ≡ ok plugin
    pub has_version : subscript plugin (text "Version") ≡ ok (str version)
    pub no_package : All (λ name. starts_with (text "package/") name ≡ false) (names_of entries)
    pub is_portable : All (λ f. IsPortable needles f.1) entries

  pub validate_plasmoid-ok :
      (dist : Files) (version : Text) (needles : List (List ℕ))
      → validate_plasmoid F open_zip dist version needles ≡ ok tt
      → IsPlasmoid dist version needles
  unfolding validate_plasmoid
  validate_plasmoid-ok dist version needles h =
      let (bytes, found, h₁) =
        >>=-eq-ok (or_raise os_error (file_at dist (plasmoid_name version))) _ h in
      let (archive, opened, h₂) = >>=-eq-ok (open_zip bytes) _ h₁ in
      let (entries, read, h₃) = >>=-eq-ok (zip_entries archive) _ h₂ in
      let (complete, h₄) =
        raise_if-passed (not (is_subset required_plasmoid (names_of entries))) assertion_error _
          h₃ in
      let (metadata, there, h₅) =
        >>=-eq-ok (or_raise other_error (lookup (text "metadata.json") entries)) _ h₄ in
      let (decoded, utf8, h₆) = >>=-eq-ok (or_raise value_error (decode_utf8 metadata)) _ h₅ in
      let (packaged, json, h₇) = >>=-eq-ok (loads {F = F} decoded) _ h₆ in
      let (plugin, plugged, h₈) = >>=-eq-ok (subscript packaged (text "KPlugin")) _ h₇ in
      let (packaged_version, versioned, h₉) = >>=-eq-ok (subscript plugin (text "Version")) _ h₈ in
      let (same, k) =
        raise_if-passed (not (equals_text packaged_version version)) assertion_error _ h₉ in
      let (apart, portable) =
        raise_if-passed (not (not (any_text (starts_with (text "package/")) (names_of entries))))
          assertion_error _ k in
      record {
        bytes = bytes;
        archive = archive;
        entries = entries;
        metadata = metadata;
        decoded = decoded;
        packaged = packaged;
        plugin = plugin;
        is_file = or_raise-eq_ok os_error _ found;
        is_archive = opened;
        are_entries = read;
        is_complete = is_subset→Within _ _ complete;
        is_metadata = or_raise-eq_ok other_error _ there;
        is_utf8 = or_raise-eq_ok value_error _ utf8;
        is_json = json;
        is_plugin = plugged;
        has_version = versioned ∙ ap ok (equals_text-true F packaged_version version same);
        no_package = any_text-none _ _ (ground arith);
        is_portable = assert_all_portable-ok entries needles portable;
      }
