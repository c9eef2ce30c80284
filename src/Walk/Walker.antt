-- ===== src/Walk/Walker.antt =====
-- The state of a walker and how it is made (src/walker/mod.rs, src/walker/construction.rs). The frames
-- stand with the last one first. A panic of `expect` stands as an error with its message.
use weavatrix_scan.Common.{
  ℕ, ◌+◌, ◌-◌, Bool, true, false, Option, none, some, List, [], ◌∷◌, ◌⊎◌, inl, inr, leb, Ordering,
  if◌then◌else◌,
}
use weavatrix_scan.Text.{Bytes}
use weavatrix_scan.Report.{FileVersion, FileIdentity}
use weavatrix_scan.Walk.{
  DirectoryIdentity, WalkOptions, WalkError, WalkEntry, WalkOperation, walk_error, insert_identity,
}
use weavatrix_scan.Walk.Files.{FileSystem, FileType, DirEntry, PlatformDirectoryInfo}

-- What a directory still has to give: an error or an entry each.
abbrev pub RawEntry : Type 0
RawEntry = Bytes ⊎ DirEntry

pub record PendingDirectory : Type 0 where
  pub path : Bytes
  pub depth : ℕ
  pub identity : Option DirectoryIdentity
  pub post_entry : Option WalkEntry

pub data DirectoryEntries : Type 0 where
  opened : List RawEntry → DirectoryEntries
  buffered : List RawEntry → DirectoryEntries

abbrev pub is_open : DirectoryEntries → Bool
is_open (opened entries) = true
is_open (buffered entries) = false

pub record DirectoryFrame : Type 0 where
  pub path : Bytes
  pub depth : ℕ
  pub entries : DirectoryEntries
  pub identity : Option DirectoryIdentity
  pub post_entry : Option WalkEntry

pub record Walker : Type 0 where
  pub root : Bytes
  pub root_components : ℕ
  pub root_file_type : Option FileType
  pub root_bytes : Option ℕ
  pub root_version : Option FileVersion
  pub root_file_system : Option ℕ
  pub root_directory_info : Option PlatformDirectoryInfo
  pub options : WalkOptions
  pub frames : List DirectoryFrame
  pub open_handles : ℕ
  pub yield_root : Bool
  pub pending_directory : Option PendingDirectory
  pub skip_pending_directory : Bool
  pub active_directories : List DirectoryIdentity
  pub finished : Bool
  pub sorter : Option (DirEntry → DirEntry → Ordering)
  pub filter : Option (WalkEntry → Bool)
  pub skip_stdout : Option FileIdentity
  pub contents_first : Bool
  pub deferred_entry : Option WalkEntry
  pub plain_entries : Bool

-- The behaviour that a builder adds to the options.
pub record Behavior : Type 0 where
  pub sorter : Option (DirEntry → DirEntry → Ordering)
  pub filter : Option (WalkEntry → Bool)
  pub skip_stdout : Option FileIdentity
  pub contents_first : Bool

abbrev pub default_behavior : Behavior
default_behavior = record {
  sorter = none;
  filter = none;
  skip_stdout = none;
  contents_first = false;
}

abbrev pub is_none {ℓ} : {A : Type ℓ} → Option A → Bool
is_none none = true
is_none (some a) = false

-- `Walker::skip_current_dir`.
abbrev pub skip_current_dir : Walker → Walker
skip_current_dir walker =
    if is_none walker.pending_directory
    then walker
    else record walker { skip_pending_directory = true }

-- The oldest frame that is open gives all its entries at once: the first such frame of the vector, which is the
-- last one here.
abbrev pub buffer_oldest : List DirectoryFrame → Option (List DirectoryFrame)
buffer_oldest [] = none
buffer_oldest (frame ∷ frames) = elim (buffer_oldest frames) [
  | some older ↦ some (frame ∷ older)
  | none ↦ elim frame.entries [
    | opened entries ↦ some (record frame { entries = buffered entries } ∷ frames)
    | buffered entries ↦ none
  ]
]

abbrev pub with_buffered : Walker → Option (List DirectoryFrame) → Walker
with_buffered walker none = walker
with_buffered walker (some frames) = record walker {
  frames = frames;
  open_handles = walker.open_handles - 1;
}

-- `Walker::buffer_oldest_open_directory`.
abbrev pub buffer_oldest_open_directory : Walker → Walker
buffer_oldest_open_directory walker = with_buffered walker (buffer_oldest walker.frames)

-- How a sorter compares: errors first.
abbrev pub compare_raw : (DirEntry → DirEntry → Ordering) → RawEntry → RawEntry → Ordering
compare_raw sorter (inr left) (inr right) = sorter left right
compare_raw sorter (inl left) (inr right) = Ordering.lt
compare_raw sorter (inr left) (inl right) = Ordering.gt
compare_raw sorter (inl left) (inl right) = Ordering.eq

-- A stable sort: an entry goes behind those that are not greater.
abbrev pub insert_raw : (DirEntry → DirEntry → Ordering) → RawEntry → List RawEntry → List RawEntry
insert_raw sorter entry [] = entry ∷ []
insert_raw sorter entry (other ∷ others) = elim (compare_raw sorter entry other) [
  | Ordering.gt ↦ other ∷ insert_raw sorter entry others
  | other_order ↦ entry ∷ other ∷ others
]

abbrev pub sort_raw : (DirEntry → DirEntry → Ordering) → List RawEntry → List RawEntry
sort_raw sorter [] = []
sort_raw sorter (entry ∷ entries) = insert_raw sorter entry (sort_raw sorter entries)

abbrev pub directory_entries :
    Option (DirEntry → DirEntry → Ordering) → List RawEntry → DirectoryEntries
directory_entries none entries = opened entries
directory_entries (some sorter) entries = buffered (sort_raw sorter entries)

abbrev push_frame : Walker → PendingDirectory → List RawEntry → Walker
push_frame walker pending raw =
    let entries = directory_entries walker.sorter raw in
    record walker {
      active_directories = insert_identity pending.identity walker.active_directories;
      frames =
          record {
            path = pending.path;
            depth = pending.depth;
            entries = entries;
            identity = pending.identity;
            post_entry = pending.post_entry;
          }
          ∷ walker.frames;
      open_handles = walker.open_handles + (if is_open entries then 1 else 0);
    }

abbrev pub open_result :
    Walker → PendingDirectory → Bytes ⊎ List RawEntry → Option WalkError × Walker
open_result walker pending (inr entries) = (none, push_frame walker pending entries)
open_result walker pending (inl source) = (
  some (walk_error pending.path pending.depth WalkOperation.read_directory source),
  record walker { deferred_entry = pending.post_entry },
)

abbrev pub make_room : Walker → Walker
make_room walker =
    if leb walker.options.max_open walker.open_handles
    then buffer_oldest_open_directory walker
    else walker

abbrev pub open_pending : FileSystem → Walker → PendingDirectory → Option WalkError × Walker
open_pending files walker pending =
    if walker.skip_pending_directory
    then (none, record walker { skip_pending_directory = false })
    else open_result (make_room walker) pending (files.read_dir pending.path)

abbrev pub schedule : FileSystem → Walker → Option PendingDirectory → Option WalkError × Walker
schedule files walker none = (none, walker)
schedule files walker (some pending) =
    open_pending files (record walker { pending_directory = none }) pending

-- `Walker::schedule_pending_directory`.
abbrev pub schedule_pending_directory : FileSystem → Walker → Option WalkError × Walker
schedule_pending_directory files walker = schedule files walker walker.pending_directory
