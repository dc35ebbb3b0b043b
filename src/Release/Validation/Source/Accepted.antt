-- ===== src/Release/Validation/Source/Accepted.antt =====
-- What the sources and the files have that `main` accepts.
use mathlib.Core.Path.{subst}
use ttop_desk.Prelude.{
  ℕ, ◌≡◌, ap, ◌∙◌, true, false, not, some, List, Text, text, All, All-map, arith, contains_text,
}
use ttop_desk.Python.Exceptions.{Result, ok, assertion_error, raise_if-passed, >>=-eq-ok}
use ttop_desk.Python.Runtime.{Runtime}
use ttop_desk.Json.{Json, str}
use ttop_desk.Json.Decode.{loads}
use ttop_desk.Release.Archives.{ZipMember, TarMember}
use ttop_desk.Release.Archives.Entries.{Files, any_text}
use ttop_desk.Release.Validation.{read_text}
use ttop_desk.Release.Validation.Dist.{validate_dist, subscript, equals_text}
use ttop_desk.Release.Validation.Dist.Laws.{any_text-none, equals_text-true}
use ttop_desk.Release.Validation.Dist.Accepted.{IsRelease, validate_dist_sound}
use ttop_desk.Release.Validation.Source.Sudo.{RunsSudo, no_sudo}
use ttop_desk.Release.Validation.Source.{
  plugin_id, read_version, has_fixed_version, sets_user, required_sources, is_file, validate_script,
  validate_service, validate_documents, validate_metadata, validate_source, main,
}

-- A script that is read, does not name the developer's directory, and nowhere runs sudo at the start
-- of a line or behind a separator.
pub record IsScript (root : Files) (name : Text) : Type 0 where
  pub script : Text
  pub is_text : read_text root name ≡ ok script
  pub no_path : contains_text (text "/data/Projects/TTop-Desk") script ≡ false
  pub no_sudo : ¬ RunsSudo script

validate_script-ok :
    (root : Files) (name : Text) → validate_script root name ≡ ok tt → IsScript root name
unfolding validate_script
validate_script-ok root name h =
    let (script, read, h₁) = >>=-eq-ok (read_text root name) _ h in
    let (path, h₂) =
      raise_if-passed (not (not (contains_text (text "/data/Projects/TTop-Desk") script)))
        assertion_error _ h₁ in
    record {
      script = script;
      is_text = read;
      no_path = ground arith;
      no_sudo = no_sudo script (ground arith);
    }

-- A service that has only Unix sockets, and names no user.
pub record IsService (root : Files) : Type 0 where
  pub service : Text
  pub is_text : read_text root (text "release/ttop-desk-backend.service.in") ≡ ok service
  pub unix_only : contains_text (text "RestrictAddressFamilies=AF_UNIX") service ≡ true
  pub no_internet : contains_text (text "AF_INET") service ≡ false
  pub no_user : sets_user service ≡ false

validate_service-ok : (root : Files) → validate_service root ≡ ok tt → IsService root
unfolding validate_service
validate_service-ok root h =
    let (service, read, h₁) =
      >>=-eq-ok (read_text root (text "release/ttop-desk-backend.service.in")) _ h in
    let (unix, h₂) =
      raise_if-passed (not (contains_text (text "RestrictAddressFamilies=AF_UNIX") service))
        assertion_error _ h₁ in
    let (mask, h₃) =
      raise_if-passed (not (contains_text (text "UMask=0077") service)) assertion_error _ h₂ in
    let (temporary, h₄) =
      raise_if-passed (not (not (contains_text (text "PrivateTmp=true") service))) assertion_error _
        h₃ in
    let (internet, h₅) =
      raise_if-passed (not (not (contains_text (text "AF_INET") service))) assertion_error _ h₄ in
    let (user, h₆) = raise_if-passed (not (not (sets_user service))) assertion_error _ h₅ in
    record {
      service = service;
      is_text = read;
      unix_only = ground arith;
      no_internet = ground arith;
      no_user = ground arith;
    }

module _ (F : Type 0) ⦃n : Runtime F⦄ where
  -- Metadata of the widget with its license and the version.
  pub record IsMetadata (root : Files) (version : Text) : Type 0 where
    pub content : Text
    pub metadata : Json F
    pub plugin : Json F
    pub is_text : read_text root (text "package/metadata.json") ≡ ok content
    pub is_json : loads content ≡ ok metadata
    pub is_plugin : subscript metadata (text "KPlugin") ≡ ok plugin
    pub has_id : subscript plugin (text "Id") ≡ ok (str plugin_id)
    pub has_version : subscript plugin (text "Version") ≡ ok (str version)
    pub has_license : subscript plugin (text "License") ≡ ok (str (text "GPL-3.0-or-later"))

  validate_metadata-ok :
      (root : Files) (version : Text)
      → validate_metadata F root version ≡ ok tt
      → IsMetadata root version
  unfolding validate_metadata
  validate_metadata-ok root version h =
      let (content, read, h₁) = >>=-eq-ok (read_text root (text "package/metadata.json")) _ h in
      let (metadata, json, h₂) = >>=-eq-ok (loads {F = F} content) _ h₁ in
      let (plugin, plugged, h₃) = >>=-eq-ok (subscript metadata (text "KPlugin")) _ h₂ in
      let (id, id_there, h₄) = >>=-eq-ok (subscript plugin (text "Id")) _ h₃ in
      let (same_id, h₅) = raise_if-passed (not (equals_text id plugin_id)) assertion_error _ h₄ in
      let (v, v_there, h₆) = >>=-eq-ok (subscript plugin (text "Version")) _ h₅ in
      let (same_v, h₇) = raise_if-passed (not (equals_text v version)) assertion_error _ h₆ in
      let (license, license_there, h₈) = >>=-eq-ok (subscript plugin (text "License")) _ h₇ in
      record {
        content = content;
        metadata = metadata;
        plugin = plugin;
        is_text = read;
        is_json = json;
        is_plugin = plugged;
        has_id = id_there ∙ ap ok (equals_text-true F id plugin_id same_id);
        has_version = v_there ∙ ap ok (equals_text-true F v version same_v);
        has_license =
            license_there
            ∙ ap ok (equals_text-true F license (text "GPL-3.0-or-later") (ground arith));
      }

  -- The sources of a release.
  pub record IsSource (root : Files) (version : Text) : Type 0 where
    pub is_version : read_version root ≡ ok version
    pub metadata : IsMetadata root version
    pub has_required : All (λ name. is_file root name ≡ true) required_sources
    pub documents : validate_documents root version ≡ ok tt
    pub install : IsScript root (text "release/install.sh")
    pub uninstall : IsScript root (text "release/uninstall.sh")
    pub service : IsService root

  validate_source-ok :
      (root : Files) (version : Text) → validate_source F root ≡ ok version → IsSource root version
  unfolding validate_source
  validate_source-ok root version h =
      let (v, is_v, h₁) = >>=-eq-ok (read_version root) _ h in
      let (_, metadata, h₂) = >>=-eq-ok (validate_metadata F root v) _ h₁ in
      let (cmake, cmake_read, h₃) = >>=-eq-ok (read_text root (text "CMakeLists.txt")) _ h₂ in
      let (from_file, h₄) =
        raise_if-passed
          (not (contains_text (text "file(STRINGS \"${CMAKE_CURRENT_SOURCE_DIR}/VERSION\"") cmake))
          assertion_error _ h₃ in
      let (not_fixed, h₅) =
        raise_if-passed (not (not (has_fixed_version cmake))) assertion_error _ h₄ in
      let missing = any_text (λ required. not (is_file root required)) required_sources in
      let (there, h₆) = raise_if-passed (not (not missing)) assertion_error _ h₅ in
      let none_missing : missing ≡ false = ground arith in
      let (_, documents, h₇) = >>=-eq-ok (validate_documents root v) _ h₆ in
      let (_, install, h₈) = >>=-eq-ok (validate_script root (text "release/install.sh")) _ h₇ in
      let (_, uninstall, h₉) =
        >>=-eq-ok (validate_script root (text "release/uninstall.sh")) _ h₈ in
      let (_, service, last) = >>=-eq-ok (validate_service root) _ h₉ in
      let same : v ≡ version = ground arith in
      subst (IsSource root) same record {
        is_version = is_v;
        metadata = validate_metadata-ok root v metadata;
        has_required =
            All-map (λ name. not (is_file root name) ≡ false) (λ name. is_file root name ≡ true)
              required_sources (λ name there. ground arith) (any_text-none _ _ none_missing);
        documents = documents;
        install = validate_script-ok root (text "release/install.sh") install;
        uninstall = validate_script-ok root (text "release/uninstall.sh") uninstall;
        service = validate_service-ok root service;
      }

  module _ (open_zip : List ℕ → Result (List ZipMember))
      (open_tar : List ℕ → Result (List TarMember)) (sha256 : List ℕ → Text) where
    -- When `main` of validate-release.py accepts the sources and a directory, it returns 0, and
    -- there is one version that VERSION, the metadata of the widget and that of the plasmoid have;
    -- the sources have the required files, and release/install.sh and release/uninstall.sh have no
    -- `sudo` as a whole word at the start of a line or behind `;`, `&` or `|` and white space; the
    -- directory has exactly the files of a release, with valid checksums; and its three archives
    -- have the required entries, and no forbidden path in any of them.
    pub main_sound :
        (root dist : Files) (needles : List (List ℕ)) (status : ℕ)
        → main F open_zip open_tar sha256 root (some dist) needles ≡ ok status
        → (version : Text) × IsSource root version
          × IsRelease F open_zip open_tar sha256 dist version needles
          × (status ≡ 0)
    unfolding main
    main_sound root dist needles status h =
        let (version, source, h₁) = >>=-eq-ok (validate_source F root) _ h in
        let (_, files, last) =
          >>=-eq-ok (validate_dist F open_zip open_tar sha256 dist version needles) _ h₁ in
        (
          version,
          validate_source-ok root version source,
          validate_dist_sound F open_zip open_tar sha256 dist version needles files,
          ground arith,
        )
