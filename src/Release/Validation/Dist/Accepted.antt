-- ===== src/Release/Validation/Dist/Accepted.antt =====
-- What a directory has that validate_dist accepts.
use ttop_desk.Prelude.{ℕ, ◌≡◌, not, List, Text}
use ttop_desk.Python.Exceptions.{Result, ok, assertion_error, raise_if-passed, >>=-eq-ok}
use ttop_desk.Python.Runtime.{Runtime}
use ttop_desk.Release.Archives.{ZipMember, TarMember}
use ttop_desk.Release.Archives.Entries.{Files}
use ttop_desk.Release.Validation.{validate_checksums}
use ttop_desk.Release.Validation.Checksums.{AreSums, validate_checksums_iff}
use ttop_desk.Release.Validation.Dist.{
  expected_files, names_of, same_set, validate_plasmoid, validate_backend, validate_dist,
}
use ttop_desk.Release.Validation.Dist.Laws.{
  Within, same_set→Within, IsPlasmoid, validate_plasmoid-ok,
}
use ttop_desk.Release.Validation.Dist.Tarballs.{
  IsBackend, validate_backend-ok, IsBundle, validate_bundle-ok,
}

module _ (F : Type 0) ⦃n : Runtime F⦄ (open_zip : List ℕ → Result (List ZipMember))
    (open_tar : List ℕ → Result (List TarMember)) (sha256 : List ℕ → Text) where
  -- The files of a release, checked sums, and its three archives.
  pub record IsRelease (dist : Files) (version : Text) (needles : List (List ℕ)) : Type 0 where
    pub no_other : Within (names_of dist) (expected_files version)
    pub complete : Within (expected_files version) (names_of dist)
    pub sums : AreSums sha256 dist
    pub plasmoid : IsPlasmoid F open_zip dist version needles
    pub backend : IsBackend open_tar dist version needles
    pub bundle : IsBundle open_tar sha256 dist version needles

  -- Sound.
  pub validate_dist_sound :
      (dist : Files) (version : Text) (needles : List (List ℕ))
      → validate_dist F open_zip open_tar sha256 dist version needles ≡ ok tt
      → IsRelease dist version needles
  unfolding validate_dist
  validate_dist_sound dist version needles h =
      let (files, h₁) =
        raise_if-passed (not (same_set (names_of dist) (expected_files version))) assertion_error _
          h in
      let (_, sums, h₂) = >>=-eq-ok (validate_checksums sha256 dist) _ h₁ in
      let (_, plasmoid, h₃) = >>=-eq-ok (validate_plasmoid F open_zip dist version needles) _ h₂ in
      let (_, backend, bundle) = >>=-eq-ok (validate_backend open_tar dist version needles) _ h₃ in
      record {
        no_other = (same_set→Within _ _ files).0;
        complete = (same_set→Within _ _ files).1;
        sums = (validate_checksums_iff sha256 dist).0 sums;
        plasmoid = validate_plasmoid-ok F open_zip dist version needles plasmoid;
        backend = validate_backend-ok open_tar dist version needles backend;
        bundle = validate_bundle-ok open_tar sha256 dist version needles bundle;
      }
