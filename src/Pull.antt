-- ===== src/Pull.antt =====
-- The ordered parallel traversal (src/parallel/ordered_pull): a coordinator hands directories to workers
-- and emits their entries in depth-first order, whichever worker is done first. What the workers, the
-- thread pool, the receiver and a cancelling thread do is a World, asked at every tick of a clock.
pub mod Scheduler
pub mod Refill
mod Receive
pub mod Order
use weavatrix_scan.Common.{
  ℕ, zero, suc, ◌+◌, ◌-◌, ◌%◌, min, Bool, true, false, ◌&&◌, ◌||◌, not, Option, none, some, List,
  [], ◌∷◌, ◌++◌, ◌⊎◌, inl, inr, ◌==◌, ltb, leb, length, take, Ordering, if◌then◌else◌,
}
use weavatrix_scan.Text.{Bytes, bytes, text_cmp}
use weavatrix_scan.Report.{saturating_add, FileIdentity}
use weavatrix_scan.Walk.{
  DirectoryIdentity, ErrorPolicy, continue, abort, WalkOptions, WalkError, WalkEntry, WalkOperation,
  Item, walk_error, item_path, clear_depth_skip, descends, insert_identity,
}
use weavatrix_scan.Walk.Files.{FileSystem, components}
use weavatrix_scan.Walk.Walker.{Walker, skip_current_dir}
use weavatrix_scan.Walk.Construction.{from_known_directory}
use weavatrix_scan.Walk.Iterate.{Result, next, is_stdout}

-- A directory to read, without its number.
pub record Place : Type 0 where
  pub path : Bytes
  pub depth : ℕ
  pub identity : Option DirectoryIdentity
  pub ancestors : List DirectoryIdentity

pub record DirectoryTask : Type 0 where
  pub id : ℕ
  pub place : Place

pub record DirectoryBatch : Type 0 where
  pub entries : List Item
  pub ancestors : List DirectoryIdentity

pub record PreparedItem : Type 0 where
  pub item : Item
  pub child : Option ℕ

-- The options of a worker: one directory, all its entries, errors among them.
abbrev worker_depth : Option ℕ → ℕ → ℕ
worker_depth none depth = saturating_add depth 1
worker_depth (some max_depth) depth = min max_depth (saturating_add depth 1)

abbrev worker_options : WalkOptions → ℕ → WalkOptions
worker_options options depth = record options {
  error_policy = continue;
  min_depth = 0;
  max_open = 1;
  max_depth = some (worker_depth options.max_depth depth);
}

abbrev deeper_allowed : Option ℕ → ℕ → Bool
deeper_allowed none depth = true
deeper_allowed (some max_depth) depth = ltb depth max_depth

-- The worker's own bound is not a reason to skip a directory.
abbrev worker_item : WalkOptions → Item → Item
worker_item options (inl error) = inl error
worker_item options (inr entry) =
    if entry.is_directory && deeper_allowed options.max_depth entry.depth
    then inr (clear_depth_skip entry)
    else inr entry

abbrev behind_item : Item → Walker → Walker
behind_item (inl error) walker = walker
behind_item (inr entry) walker = if entry.is_directory then skip_current_dir walker else walker

abbrev read_step : WalkOptions → (Walker → Option (List Item)) → Result → Option (List Item)
read_step options rest none = none
read_step options rest (some (none, walker)) = some []
read_step options rest (some (some item, walker)) = elim (rest (behind_item item walker)) [
  | none ↦ none
  | some items ↦ some (worker_item options item ∷ items)
]

abbrev read_loop : FileSystem → WalkOptions → ℕ → Walker → Option (List Item)
read_loop files options zero walker = none
read_loop files options (suc fuel) walker =
    read_step options (read_loop files options fuel) (next files (suc fuel) walker)

-- `read_directory`, without a cancellation; `none` stands for fuel that ran out.
unfoldable pub read_directory :
    FileSystem → Bytes → Option ℕ → WalkOptions → ℕ → Place → Option (List Item)
read_directory files root root_file_system options fuel place = read_loop files options fuel (
    from_known_directory root place.path place.depth (worker_options options place.depth)
      root_file_system place.identity place.ancestors)

-- What the coordinator sends of what it goes through: errors, and entries below the minimal depth that are
-- not the standard output.
abbrev visible_item : FileSystem → ℕ → Option FileIdentity → Item → Bool
visible_item files min_depth skip_stdout (inl error) = true
visible_item files min_depth skip_stdout (inr entry) =
    leb min_depth entry.depth && not (entry.is_file && is_stdout files skip_stdout entry)

-- `Path::cmp` compares components.
abbrev components_cmp : List Bytes → List Bytes → Ordering
components_cmp [] [] = Ordering.eq
components_cmp [] (d ∷ ds) = Ordering.lt
components_cmp (c ∷ cs) [] = Ordering.gt
components_cmp (c ∷ cs) (d ∷ ds) = elim (text_cmp c d) [
  | Ordering.lt ↦ Ordering.lt
  | Ordering.eq ↦ components_cmp cs ds
  | Ordering.gt ↦ Ordering.gt
]

abbrev insert_item : Item → List Item → List Item
insert_item item [] = item ∷ []
insert_item item (other ∷ others) =
    elim (components_cmp (components (item_path item)) (components (item_path other))) [
      | Ordering.gt ↦ other ∷ insert_item item others
      | other_order ↦ item ∷ other ∷ others
    ]

-- The stable sort by path.
abbrev pub sort_items : List Item → List Item
sort_items [] = []
sort_items (item ∷ items) = insert_item item (sort_items items)

-- Where an entry's directory is read, below directories with these identities.
abbrev child_place : List DirectoryIdentity → WalkEntry → Place
child_place ancestors entry = record {
  path = entry.path;
  depth = entry.depth;
  identity = entry.directory_identity;
  ancestors = insert_identity entry.directory_identity ancestors;
}

abbrev pub child_of : List DirectoryIdentity → Item → Option Place
child_of ancestors (inl error) = none
child_of ancestors (inr entry) = if descends entry then some (child_place ancestors entry) else none

-- The items of a frame, numbered from the next number on, the tasks of its children, and the number behind.
abbrev pub Prepared : Type 0
Prepared = List PreparedItem × List DirectoryTask × ℕ

abbrev pub add_item : Item → Option Place → ℕ → (ℕ → Prepared) → Prepared
add_item item none next_id rest =
    let (items, children, behind) = rest next_id in
    (record { item = item; child = none } ∷ items, children, behind)
add_item item (some place) next_id rest =
    let (items, children, behind) = rest (saturating_add next_id 1) in
    (
      record { item = item; child = some next_id } ∷ items,
      record { id = next_id; place = place } ∷ children,
      behind,
    )

unfoldable pub prepare_items : List DirectoryIdentity → List Item → ℕ → Prepared
prepare_items ancestors [] next_id = ([], [], next_id)
prepare_items ancestors (item ∷ items) next_id =
    add_item item (child_of ancestors item) next_id (prepare_items ancestors items)
