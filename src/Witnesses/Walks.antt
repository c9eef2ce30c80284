-- ===== src/Witnesses/Walks.antt =====
-- The theorems about walks at a concrete file system.
use weavatrix_scan.Common.{
  ◌≡◌, ◌≤◌, ◌<◌, refl, none, some, List, [], ◌∷◌, ◌⊎◌, inl, inr, if◌then◌else◌, arith,
}
use weavatrix_scan.Text.{Bytes, bytes, text_eq}
use weavatrix_scan.Walk.{WalkOptions, default_options, Item}
use weavatrix_scan.Walk.Files.{FileSystem, FileType, Metadata, regular, directory}
use weavatrix_scan.Walk.Walker.{Walker, default_behavior, RawEntry}
use weavatrix_scan.Walk.Construction.{with_behavior, new_walker}
use weavatrix_scan.Walk.Iterate.{collect}
use weavatrix_scan.Walk.Handles.{open_count}
use weavatrix_scan.Walk.Handles.Reached.{Reached, Reached-IsBounded}
use weavatrix_scan.Walk.Ends.Collect.{collect-ends}

abbrev meta_of : FileType → Metadata
meta_of kind = record {
  file_type = kind;
  len = 1;
  modified_ns = none;
  changed_ns = none;
  device = 1;
  inode = 1;
}

abbrev entry_at : Bytes → FileType → RawEntry
entry_at path kind =
    inr (record { path = path; file_type = inr kind; metadata = inr (meta_of kind) })

abbrev listing_at : Bytes → Bytes ⊎ List RawEntry
listing_at path =
    if text_eq path (bytes "/r")
    then inr (entry_at (bytes "/r/a") directory ∷ entry_at (bytes "/r/b") regular ∷ [])
    else if text_eq path (bytes "/r/a")
    then inr (entry_at (bytes "/r/a/c") regular ∷ inl (bytes "denied") ∷ [])
    else inl (bytes "no such directory")

-- A directory with a file, and a file.
abbrev small_tree : FileSystem
small_tree = record {
  read_dir = listing_at;
  metadata = λ path. inr (meta_of directory);
  symlink_metadata = λ path. inr (meta_of directory);
  canonicalize = λ path. inr path;
  current_dir = inr (bytes "/");
}

abbrev two_levels : WalkOptions
two_levels = record default_options { max_depth = some 2; max_open = 1 }

abbrev small_walker : Walker
small_walker = new_walker (bytes "/r") (meta_of directory) two_levels default_behavior none

small_walker-made :
    with_behavior small_tree (bytes "/r") two_levels default_behavior ≡ inr small_walker
unfolding with_behavior
small_walker-made = refl

Reached-IsBounded_example :
    (small_walker.open_handles ≡ open_count small_walker.frames)
    × (open_count small_walker.frames ≤ small_walker.options.max_open)
    × (0 < small_walker.options.max_open)
Reached-IsBounded_example =
    Reached-IsBounded small_tree small_walker
      (Reached.made (bytes "/r") two_levels default_behavior small_walker small_walker-made)

collect-ends_example : (items : List Item) × (collect small_tree 40 small_walker ≡ some items)
collect-ends_example =
    collect-ends small_tree (bytes "/r") two_levels default_behavior small_walker 2 40 refl
      small_walker-made (omega arith)
