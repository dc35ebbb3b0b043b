-- ===== src/Release/Archives/Order.antt =====
-- Both archives are functions of the set of paths: the order in which `rglob` finds them is lost.
use mathlib.Core.List.{Permᴰ}
use ttop_desk.Prelude.{◌≡◌, refl, List, Text, text_lt_asym, text_le_trans}
use ttop_desk.Python.Sort.{AllApart}
use ttop_desk.Python.Sort.Laws.{sorted-eq_of_perm}
use ttop_desk.Release.Archives.{
  Entry, entry_lt, relative_name, source_entries, create_zip, create_tar_gz,
}

-- Any two paths have different names.
abbrev pub AllDistinct : List Entry → Type 0
AllDistinct = AllApart entry_lt

source_entries-perm :
    (seen other : List Entry)
    → Permᴰ seen other
    → AllDistinct seen
    → source_entries seen ≡ source_entries other
unfolding source_entries
source_entries-perm seen other p h =
    (sorted-eq_of_perm entry_lt (λ a b. text_lt_asym (relative_name a) (relative_name b))
      (λ a b d. text_le_trans (relative_name a) (relative_name b) (relative_name d)) p h).0

-- For paths with different names, both archives are the same in whatever order `rglob` finds the
-- paths.
pub archives_reproducible :
    (seen other : List Entry) (prefix : Text)
    → Permᴰ seen other
    → AllDistinct seen
    → (create_zip seen prefix ≡ create_zip other prefix)
      × (create_tar_gz seen prefix ≡ create_tar_gz other prefix)
unfolding create_zip create_tar_gz
archives_reproducible seen other prefix p h =
    let same = source_entries-perm seen other p h in (rw same refl, rw same refl)
