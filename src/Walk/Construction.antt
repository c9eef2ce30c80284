-- ===== src/Walk/Construction.antt =====
-- How a walker is made (src/walker/construction.rs). A relative root is joined with the current directory.
use weavatrix_scan.Common.{
  ℕ, Bool, true, false, ◌&&◌, ◌||◌, not, Option, none, some, List, [], ◌∷◌, ◌++◌, ◌⊎◌, inl, inr,
  ◌==◌, length, if◌then◌else◌,
}
use weavatrix_scan.Text.{Bytes, bytes, slash}
use weavatrix_scan.Walk.{
  DirectoryIdentity, WalkOptions, reject, normalized, WalkError, WalkOperation, walk_error,
  error_at, ◌>>=◌,
}
use weavatrix_scan.Walk.Files.{
  FileSystem, Metadata, is_dir, is_file, is_symlink, from_metadata, PlatformDirectoryInfo,
  directory_info, components,
}
use weavatrix_scan.Walk.Walker.{Walker, Behavior, is_none}

abbrev reject_symlink : Bytes → WalkOptions → Bytes ⊎ Metadata → WalkError ⊎ Bool
reject_symlink requested options result =
    error_at requested 0 WalkOperation.read_metadata result >>= λ metadata.
    if is_symlink metadata.file_type
    then inl (
        walk_error requested 0 WalkOperation.read_metadata
          (bytes "root symlink rejected by policy"))
    else inr true

-- The policy for a root that is a symlink.
abbrev pub root_allowed : FileSystem → Bytes → WalkOptions → WalkError ⊎ Bool
root_allowed files requested options = elim options.root_symlink_policy [
  | reject ↦ reject_symlink requested options (files.symlink_metadata requested)
  | other ↦ inr true
]

abbrev is_absolute : Bytes → Bool
is_absolute [] = false
is_absolute (c ∷ cs) = c == slash

-- `base.join(path)` for a relative path.
abbrev join_relative : Bytes → Bytes → Bytes
join_relative base [] = base ++ slash ∷ []
join_relative base path = base ++ slash ∷ path

abbrev pub canonical_root : FileSystem → Bytes → WalkOptions → WalkError ⊎ Bytes
canonical_root files requested options =
    if options.follow_links || options.same_file_system
    then error_at requested 0 WalkOperation.canonicalize (files.canonicalize requested)
    else if is_absolute requested
    then inr requested
    else (error_at requested 0 WalkOperation.canonicalize files.current_dir >>= λ current.
        inr (join_relative current requested))

abbrev pub root_info : Bytes → Metadata → WalkOptions → WalkError ⊎ Option PlatformDirectoryInfo
root_info canonical metadata options =
    if is_dir metadata.file_type && (options.follow_links || options.same_file_system)
    then (error_at canonical 0 WalkOperation.read_metadata (directory_info canonical metadata)
        >>= λ info. inr (some info))
    else inr none

abbrev file_system_of : Option PlatformDirectoryInfo → Option ℕ
file_system_of none = none
file_system_of (some info) = some info.file_system

abbrev is_plain : WalkOptions → Bool
is_plain options =
    not options.follow_links
    && not options.same_file_system
    && not options.collect_metadata
    && is_none options.max_depth
    && (options.min_depth == 0)

abbrev pub new_walker :
    Bytes → Metadata → WalkOptions → Behavior → Option PlatformDirectoryInfo → Walker
new_walker canonical metadata options behavior info =
    let measured = options.collect_metadata && is_file metadata.file_type in
    record {
      root = canonical;
      root_components = length (components canonical);
      root_file_type = some metadata.file_type;
      root_bytes = if measured then some metadata.len else none;
      root_version = if measured then some (from_metadata metadata) else none;
      root_file_system = if options.same_file_system then file_system_of info else none;
      root_directory_info = info;
      options = options;
      frames = [];
      open_handles = 0;
      yield_root = true;
      pending_directory = none;
      skip_pending_directory = false;
      active_directories = [];
      finished = false;
      sorter = behavior.sorter;
      filter = behavior.filter;
      skip_stdout = behavior.skip_stdout;
      contents_first = behavior.contents_first;
      deferred_entry = none;
      plain_entries =
          is_plain options
          && is_none behavior.filter
          && is_none behavior.skip_stdout
          && not behavior.contents_first;
    }

-- `Walker::with_behavior`.
unfoldable pub with_behavior : FileSystem → Bytes → WalkOptions → Behavior → WalkError ⊎ Walker
with_behavior files requested given behavior =
    let options = normalized given in
    root_allowed files requested options >>= λ allowed.
    canonical_root files requested options >>= λ canonical.
    error_at canonical 0 WalkOperation.read_metadata (files.metadata canonical) >>= λ metadata.
    root_info canonical metadata options >>= λ info.
    inr (new_walker canonical metadata options behavior info)

-- `Walker::from_known_directory_with_ancestry`.
unfoldable pub from_known_directory :
    Bytes
    → Bytes
    → ℕ
    → WalkOptions
    → Option ℕ
    → Option DirectoryIdentity
    → List DirectoryIdentity
    → Walker
from_known_directory root directory depth given root_file_system identity active =
    let options = normalized given in
    record {
      root = root;
      root_components = length (components root);
      root_file_type = none;
      root_bytes = none;
      root_version = none;
      root_file_system = root_file_system;
      root_directory_info = none;
      options = options;
      frames = [];
      open_handles = 0;
      yield_root = false;
      pending_directory =
          some (record { path = directory; depth = depth; identity = identity; post_entry = none });
      skip_pending_directory = false;
      active_directories = active;
      finished = false;
      sorter = none;
      filter = none;
      skip_stdout = none;
      contents_first = false;
      deferred_entry = none;
      plain_entries = is_plain options;
    }
