-- ===== src/Walk/Visit.antt =====
-- Visiting one path (src/walk_visit.rs): what is known of it, whether it is skipped, and whether the walk
-- goes down into it.
use weavatrix_scan.Common.{
  ℕ, Bool, true, false, ◌&&◌, ◌||◌, not, Option, none, some, List, [], ◌⊎◌, inl, inr, ◌==◌, leb,
  if◌then◌else◌,
}
use weavatrix_scan.Text.{Bytes, bytes}
use weavatrix_scan.Report.{FileVersion}
use weavatrix_scan.Walk.{
  DirectoryIdentity, WalkOptions, WalkError, WalkEntry, WalkOperation, WalkSkipReason, ErrorPolicy,
  continue, abort, Item, error_at, ◌>>=◌, has_identity, no_skip,
}
use weavatrix_scan.Walk.Files.{
  FileSystem, FileType, Metadata, is_dir, is_file, is_symlink, from_metadata, is_hidden_metadata,
  PlatformDirectoryInfo, directory_info, path_starts_with,
}
use weavatrix_scan.Walk.Walker.{Walker}

-- What a visit knows of a file.
pub record Evidence : Type 0 where
  pub bytes : Option ℕ
  pub version : Option FileVersion
  pub hidden : Option Bool

abbrev pub no_evidence : Evidence
no_evidence = record { bytes = none; version = none; hidden = none }

-- `metadata_evidence`.
abbrev pub metadata_evidence : Bytes → Metadata → Evidence
metadata_evidence path metadata = record {
  bytes = some metadata.len;
  version = some (from_metadata metadata);
  hidden = some (is_hidden_metadata path metadata);
}

pub record EntryFacts : Type 0 where
  pub is_symlink : Bool
  pub is_file : Bool
  pub is_directory : Bool
  pub directory_identity : Option DirectoryIdentity
  pub skip_reason : Option WalkSkipReason

abbrev pub plain_entry : Walker → Bytes → ℕ → FileType → WalkEntry
plain_entry walker path depth file_type = record {
  root_components = walker.root_components;
  path = path;
  depth = depth;
  is_file = not (is_symlink file_type) && is_file file_type;
  is_directory = not (is_symlink file_type) && is_dir file_type;
  is_symlink = is_symlink file_type;
  bytes = none;
  version = none;
  hidden = none;
  directory_identity = none;
  skip_reason = none;
}

abbrev pub pend : Walker → Bytes → ℕ → Option DirectoryIdentity → Walker
pend walker path depth identity = record walker {
  pending_directory =
      some (record { path = path; depth = depth; identity = identity; post_entry = none });
}

-- `Walker::visit_plain`.
abbrev pub visit_plain : Walker → Bytes → ℕ → FileType → WalkEntry × Walker
visit_plain walker path depth file_type =
    let entry = plain_entry walker path depth file_type in
    (entry, if entry.is_directory then pend walker path depth none else walker)

-- `entry_file_type`.
abbrev entry_file_type : FileSystem → Bytes → ℕ → Option FileType → WalkError ⊎ FileType
entry_file_type files path depth (some file_type) = inr file_type
entry_file_type files path depth none =
    error_at path depth WalkOperation.read_metadata (files.symlink_metadata path) >>= λ metadata.
    inr metadata.file_type

-- The metadata behind a link that is followed.
abbrev target_metadata :
    FileSystem → WalkOptions → Bytes → ℕ → FileType → WalkError ⊎ Option Metadata
target_metadata files options path depth file_type =
    if is_symlink file_type && options.follow_links
    then (error_at path depth WalkOperation.read_metadata (files.metadata path) >>= λ metadata.
        inr (some metadata))
    else inr none

-- The type behind a link that is followed.
abbrev effective_type : FileType → Option Metadata → FileType
effective_type file_type none = file_type
effective_type file_type (some metadata) = metadata.file_type

abbrev effective_evidence : WalkOptions → Bytes → Evidence → Option Metadata → Evidence
effective_evidence options path evidence none = evidence
effective_evidence options path evidence (some metadata) =
    if options.collect_metadata && is_file metadata.file_type
    then metadata_evidence path metadata
    else evidence

abbrev canonical_of : FileSystem → Walker → Bytes → ℕ → WalkError ⊎ Bytes
canonical_of files walker path depth =
    if depth == 0
    then inr walker.root
    else error_at path depth WalkOperation.canonicalize (files.canonicalize path)

abbrev metadata_of : FileSystem → Bytes → ℕ → Option Metadata → WalkError ⊎ Metadata
metadata_of files path depth (some metadata) = inr metadata
metadata_of files path depth none =
    error_at path depth WalkOperation.read_metadata (files.metadata path)

abbrev expect_info : Option PlatformDirectoryInfo → Bytes ⊎ PlatformDirectoryInfo
expect_info none = inl (bytes "directory identity was requested")
expect_info (some info) = inr info

abbrev info_of : Walker → Bytes → ℕ → Bytes → Metadata → WalkError ⊎ PlatformDirectoryInfo
info_of walker path depth canonical metadata = error_at path depth WalkOperation.read_metadata (
    if depth == 0
    then expect_info walker.root_directory_info
    else directory_info canonical metadata)

abbrev other_file_system : Option ℕ → ℕ → Bool
other_file_system none file_system = false
other_file_system (some root_file_system) file_system = not (file_system == root_file_system)

-- The identity of a directory, and why the walk does not go down into it.
abbrev Resolved : Type 0
Resolved = Option DirectoryIdentity × Option WalkSkipReason

abbrev resolve_directory :
    FileSystem → Walker → Bytes → ℕ → Bytes → Option Metadata → WalkError ⊎ Resolved
resolve_directory files walker path depth canonical target =
    metadata_of files path depth target >>= λ metadata.
    info_of walker path depth canonical metadata >>= λ info. inr (
      if walker.options.follow_links then some info.identity else none,
      if walker.options.same_file_system
            && other_file_system walker.root_file_system info.file_system
          then some WalkSkipReason.file_system_boundary
          else none,
    )

abbrev resolve : FileSystem → Walker → Bytes → ℕ → Bool → Option Metadata → WalkError ⊎ Resolved
resolve files walker path depth is_directory target =
    canonical_of files walker path depth >>= λ canonical.
    if not (path_starts_with walker.root canonical)
    then inr (none, some WalkSkipReason.path_escape)
    else if is_directory
    then resolve_directory files walker path depth canonical target
    else inr (none, none)

-- Whether a path has to be resolved: it is a link, or its file system or its identity is asked for.
abbrev wants_resolving : WalkOptions → FileType → Bool → Bool
wants_resolving options file_type is_directory =
    is_symlink file_type || (is_directory && (options.same_file_system || options.follow_links))

-- `Walker::entry_facts`; the evidence is the metadata that the call writes through its references.
abbrev pub entry_facts :
    FileSystem
    → Walker
    → Bytes
    → ℕ
    → Option FileType
    → Evidence
    → WalkError ⊎ (EntryFacts × Evidence)
entry_facts files walker path depth known evidence =
    entry_file_type files path depth known >>= λ file_type.
    target_metadata files walker.options path depth file_type >>= λ target.
    (let effective = effective_type file_type target in
      let hidden_link = is_symlink file_type && not walker.options.follow_links in
      let is_file_type = if hidden_link then false else is_file effective in
      let is_directory = if hidden_link then false else is_dir effective in
      (if hidden_link
        then inr (none, none)
        else if wants_resolving walker.options file_type is_directory
        then resolve files walker path depth is_directory target
        else inr (none, none))
      >>= λ resolved. inr (
        record {
          is_symlink = is_symlink file_type;
          is_file = is_file_type;
          is_directory = is_directory;
          directory_identity = resolved.0;
          skip_reason = resolved.1;
        },
        effective_evidence walker.options path evidence target,
      ))

abbrev pub at_max_depth : Option ℕ → ℕ → Bool
at_max_depth none depth = false
at_max_depth (some max_depth) depth = leb max_depth depth

abbrev is_active : Option DirectoryIdentity → List DirectoryIdentity → Bool
is_active none active = false
is_active (some identity) active = has_identity identity active

-- The reason of the facts comes first, then the depth, then a loop.
abbrev pub skip_reason_of : Walker → ℕ → EntryFacts → Option WalkSkipReason
skip_reason_of walker depth facts =
    if facts.is_directory && no_skip facts.skip_reason
    then (if at_max_depth walker.options.max_depth depth
        then some WalkSkipReason.max_depth
        else if walker.options.follow_links
            && (is_active facts.directory_identity walker.active_directories && not (depth == 0))
        then some WalkSkipReason.symlink_loop
        else none)
    else facts.skip_reason

abbrev pub walk_entry_of : Walker → Bytes → ℕ → EntryFacts → Evidence → WalkEntry
walk_entry_of walker path depth facts evidence = record {
  root_components = walker.root_components;
  path = path;
  depth = depth;
  is_file = facts.is_file;
  is_directory = facts.is_directory;
  is_symlink = facts.is_symlink;
  bytes = evidence.bytes;
  version = evidence.version;
  hidden = evidence.hidden;
  directory_identity = facts.directory_identity;
  skip_reason = skip_reason_of walker depth facts;
}

abbrev pub visited : Walker → Bytes → ℕ → EntryFacts × Evidence → WalkEntry × Walker
visited walker path depth (facts, evidence) =
    let entry = walk_entry_of walker path depth facts evidence in
    (
      entry,
      if entry.is_directory && no_skip entry.skip_reason
          then pend walker path depth facts.directory_identity
          else walker,
    )

-- `Walker::visit`.
abbrev pub visit :
    FileSystem → Walker → Bytes → ℕ → Option FileType → Evidence → WalkError ⊎ (WalkEntry × Walker)
visit files walker path depth known evidence =
    entry_facts files walker path depth known evidence >>= λ found.
    inr (visited walker path depth found)

-- What an error leaves of the walk.
abbrev pub after_error : ErrorPolicy → Walker → Walker
after_error continue walker = walker
after_error abort walker = record walker {
  finished = true;
  frames = [];
  open_handles = 0;
  pending_directory = none;
  active_directories = [];
}

-- `Walker::yield_error`, with the walker behind it.
abbrev pub yield_error : Walker → WalkError → Item × Walker
yield_error walker error = (inl error, after_error walker.options.error_policy walker)
