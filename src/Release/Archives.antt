-- ===== src/Release/Archives.antt =====
-- scripts/release_archive.py: the members that `create_zip` and `create_tar_gz` write. The bytes of
-- the archives are those of `zipfile`, `tarfile` and `gzip`.
pub mod Order
pub mod Entries
pub mod Script
use ttop_desk.Prelude.{
  ℕ, ◌*◌, ◌+◌, ◌^◌, Bool, true, false, List, [], ◌∷◌, ◌++◌, Text, text, text_lt, length,
  if◌then◌else◌,
}
use ttop_desk.Python.Strings.{is_empty}
use ttop_desk.Python.Sort.{sorted}
use ttop_desk.Release.Paths.{PurePath, join, rstrip_char, parse_path, joined, as_posix}

-- What a path of the source's tree is. `other_kind` is a socket, a pipe or a device.
pub data Kind : Type 0 where
  symbolic_link directory regular other_kind : Kind

-- One path that `source.rglob("*")` gives: its parts below the source, the answer of
-- `os.access(path, os.X_OK)`, and what `read_bytes` gives.
pub record Entry : Type 0 where
  pub parts : List Text
  pub kind : Kind
  pub executable : Bool
  pub content : List ℕ

-- `SystemExit` with its message, or the value.
pub data Exit {ℓ} (A : Type ℓ) : Type ℓ where
  exits : Text → Exit A
  done : A → Exit A

infixl 5 ◌>>=◌
abbrev pub ◌>>=◌ {ℓ κ} : {A : Type ℓ} {B : Type κ} → Exit A → (A → Exit B) → Exit B
exits message >>= next = exits message
done value >>= next = next value

-- `path.relative_to(source).as_posix()`
abbrev pub relative_name : Entry → Text
relative_name entry = join b'/' entry.parts

abbrev pub entry_lt : Entry → Entry → Bool
entry_lt a b = text_lt (relative_name a) (relative_name b)

unfoldable pub source_entries : List Entry → List Entry
source_entries entries = sorted entry_lt entries

-- 0o755 and 0o644
unfoldable pub normalized_mode : Entry → ℕ
normalized_mode entry = elim entry.kind [
  | directory ↦ 493
  | _ ↦ if entry.executable then 493 else 420
]

unfoldable pub archive_name : Entry → Text → Text
archive_name entry prefix =
    let path = parse_path (relative_name entry) in
    if is_empty prefix then as_posix path else as_posix (joined (parse_path prefix) path)

-- The fields that are set on a `ZipInfo`, and what is written after it.
pub record ZipMember : Type 0 where
  pub filename : Text
  pub date_time : List ℕ
  pub create_system : ℕ
  pub external_attr : ℕ
  pub flag_bits : ℕ
  pub payload : List ℕ

abbrev pub fixed_zip_time : List ℕ
fixed_zip_time = 1980 ∷ 1 ∷ 1 ∷ 0 ∷ 0 ∷ 0 ∷ []

-- stat.S_IFREG
abbrev pub regular_mode : ℕ
regular_mode = 32768

unfoldable pub zip_member : Entry → Text → ZipMember
zip_member entry prefix = record {
  filename = archive_name entry prefix;
  date_time = fixed_zip_time;
  create_system = 3;
  external_attr = (regular_mode + normalized_mode entry) * 2 ^ 16;
  flag_bits = 2048;
  payload = entry.content;
}

-- The loop of `create_zip`.
unfoldable pub zip_loop : List Entry → Text → Exit (List ZipMember)
zip_loop [] prefix = done []
zip_loop (e ∷ es) prefix = elim e.kind [
  | symbolic_link ↦
      exits (text "symbolic links are not allowed in release archives: " ++ relative_name e)
  | directory ↦ zip_loop es prefix
  | _ ↦ zip_loop es prefix >>= λ rest. done (zip_member e prefix ∷ rest)
]

unfoldable pub create_zip : List Entry → Text → Exit (List ZipMember)
create_zip source prefix = zip_loop (source_entries source) prefix

-- `DIRTYPE`, `REGTYPE`, and the types of links and devices
pub data MemberType : Type 0 where
  directory_type regular_type other_type : MemberType

-- A `TarInfo` with its data. The owner and the time are the same numbers for all.
pub record TarMember : Type 0 where
  pub name : Text
  pub type : MemberType
  pub mode : ℕ
  pub uid : ℕ
  pub gid : ℕ
  pub uname : Text
  pub gname : Text
  pub mtime : ℕ
  pub size : ℕ
  pub payload : List ℕ

-- The members differ in their name, type, mode and data.
unfoldable pub owned_by_root : Text → MemberType → ℕ → List ℕ → TarMember
owned_by_root name type mode payload = record {
  name = name;
  type = type;
  mode = mode;
  uid = 0;
  gid = 0;
  uname = text "root";
  gname = text "root";
  mtime = 0;
  size = length payload;
  payload = payload;
}

unfoldable pub root_member : Text → TarMember
root_member prefix = owned_by_root (rstrip_char b'/' prefix ++ text "/") directory_type 493 []

-- The loop of `create_tar_gz`.
unfoldable pub tar_loop : List Entry → Text → Exit (List TarMember)
tar_loop [] prefix = done []
tar_loop (e ∷ es) prefix =
    let name = archive_name e prefix in
    elim e.kind [
      | symbolic_link ↦
          exits (text "symbolic links are not allowed in release archives: " ++ relative_name e)
      | directory ↦ tar_loop es prefix >>= λ rest.
          done (owned_by_root (name ++ text "/") directory_type (normalized_mode e) [] ∷ rest)
      | regular ↦ tar_loop es prefix >>= λ rest.
          done (owned_by_root name regular_type (normalized_mode e) e.content ∷ rest)
      | other_kind ↦ exits (text "unsupported release entry: " ++ relative_name e)
    ]

unfoldable pub create_tar_gz : List Entry → Text → Exit (List TarMember)
create_tar_gz source prefix = tar_loop (source_entries source) prefix >>= λ members.
    done (if is_empty prefix then members else root_member prefix ∷ members)
