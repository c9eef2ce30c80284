-- ===== src/Walk/Files.antt =====
-- What the walkers ask of std::fs, as a record; with src/walk_platform.rs, src/file_version.rs,
-- src/hidden.rs and src/stdout.rs on Unix, and the components of a path as std::path gives them.
use weavatrix_scan.Common.{
  ℕ, Bool, true, false, ◌&&◌, ◌||◌, not, Option, some, List, [], ◌∷◌, ◌⊎◌, inl, inr, ◌==◌, retain,
  if◌then◌else◌,
}
use weavatrix_scan.Text.{Bytes, slash, text_eq}
use weavatrix_scan.Report.{FileVersion, FileIdentity, identity_eq}
use weavatrix_scan.Walk.{DirectoryIdentity}
use weavatrix_scan.Ignore.Rules.{file_name}

pub data FileType : Type 0 where
  regular directory symlink other : FileType

pub record Metadata : Type 0 where
  pub file_type : FileType
  pub len : ℕ
  pub modified_ns : Option ℕ
  pub changed_ns : Option ℕ
  pub device : ℕ
  pub inode : ℕ

pub record DirEntry : Type 0 where
  pub path : Bytes
  pub file_type : Bytes ⊎ FileType
  pub metadata : Bytes ⊎ Metadata

-- The calls of std::fs and std::env; the left side is an error.
pub record FileSystem : Type 0 where
  pub read_dir : Bytes → Bytes ⊎ List (Bytes ⊎ DirEntry)
  pub metadata : Bytes → Bytes ⊎ Metadata
  pub symlink_metadata : Bytes → Bytes ⊎ Metadata
  pub canonicalize : Bytes → Bytes ⊎ Bytes
  pub current_dir : Bytes ⊎ Bytes

abbrev pub is_dir : FileType → Bool
is_dir directory = true
is_dir other_type = false

abbrev pub is_file : FileType → Bool
is_file regular = true
is_file other_type = false

abbrev pub is_symlink : FileType → Bool
is_symlink symlink = true
is_symlink other_type = false

-- `from_metadata` of src/file_version.rs.
abbrev pub from_metadata : Metadata → FileVersion
from_metadata metadata = record {
  modified_ns = metadata.modified_ns;
  changed_ns = metadata.changed_ns;
  identity = some (record { file_system = metadata.device; file = metadata.inode });
}

pub record PlatformDirectoryInfo : Type 0 where
  pub file_system : ℕ
  pub identity : DirectoryIdentity

-- `directory_info` of src/walk_platform.rs, which does not fail on Unix.
abbrev pub directory_info : Bytes → Metadata → Bytes ⊎ PlatformDirectoryInfo
directory_info canonical metadata = inr (record {
  file_system = metadata.device;
  identity = record { file_system = metadata.device; file = metadata.inode };
})

abbrev starts_with_dot : Bytes → Bool
starts_with_dot [] = false
starts_with_dot (c ∷ cs) = c == b'.'

-- `is_hidden_metadata` of src/hidden.rs.
abbrev pub is_hidden_metadata : Bytes → Metadata → Bool
is_hidden_metadata path metadata = starts_with_dot (file_name path)

abbrev identity_matches : FileIdentity → Bytes ⊎ Metadata → Bool
identity_matches expected (inl error) = false
identity_matches expected (inr metadata) =
    identity_eq (record { file_system = metadata.device; file = metadata.inode }) expected

-- `path_matches` of src/stdout.rs, with an error as `false`.
abbrev pub path_matches : FileSystem → Bytes → FileIdentity → Bool
path_matches files path expected = identity_matches expected (files.metadata path)

-- One byte in front of a text whose pieces between slashes are known.
abbrev split_cons : ℕ → List Bytes → List Bytes
split_cons c [] = (c ∷ []) ∷ []
split_cons c (piece ∷ pieces) = if c == slash then [] ∷ (piece ∷ pieces) else (c ∷ piece) ∷ pieces

abbrev split_slash : Bytes → List Bytes
split_slash [] = [] ∷ []
split_slash (c ∷ cs) = split_cons c (split_slash cs)

abbrev is_component : Bytes → Bool
is_component piece = not (text_eq piece [] || text_eq piece (b'.' ∷ []))

abbrev pieces_of : Bytes → List Bytes → List Bytes
pieces_of [] pieces = retain is_component pieces
pieces_of (c ∷ cs) pieces =
    if c == slash then (slash ∷ []) ∷ retain is_component pieces else retain is_component pieces

-- A leading `.` is a component.
abbrev with_current : List Bytes → List Bytes → List Bytes
with_current [] kept = kept
with_current (piece ∷ pieces) kept = if text_eq piece (b'.' ∷ []) then piece ∷ kept else kept

-- `path.components()`.
unfoldable pub components : Bytes → List Bytes
components path = let pieces = split_slash path in with_current pieces (pieces_of path pieces)

-- `path.starts_with(base)`, on components, with the base first.
abbrev components_start : List Bytes → List Bytes → Bool
components_start [] path = true
components_start (c ∷ cs) [] = false
components_start (c ∷ cs) (d ∷ ds) = text_eq c d && components_start cs ds

abbrev pub path_starts_with : Bytes → Bytes → Bool
path_starts_with base path = components_start (components base) (components path)
