-- ===== src/Walk/Ends.antt =====
-- The end of a walk with a maximal depth (src/walk_iter.rs): a weight that every step lowers.
mod Light
mod Schedule
pub mod Collect
use mathlib.Core.Path.{subst}
use weavatrix_scan.Common.{
  ℕ, zero, suc, ◌+◌, ◌-◌, ◌≤◌, ◌<◌, ◌≡◌, ◌≢◌, refl, sym, ap, ◌∙◌, Bool, true, false, ◌&&◌, ◌||◌,
  not, Option, none, some, List, [], ◌∷◌, ◌⊎◌, inl, inr, ◌==◌, leb, Bool-cases, Option-cases,
  if_elim, if◌then◌else◌, arith, All, length, leb→le, ltb,
}
use weavatrix_scan.Text.{Bytes}
use weavatrix_scan.Walk.{WalkError, WalkEntry, WalkOptions, Item, ErrorPolicy, continue, abort}
use weavatrix_scan.Walk.Files.{FileSystem, FileType, DirEntry}
use weavatrix_scan.Walk.Walker.{
  Walker, PendingDirectory, DirectoryEntries, opened, buffered, DirectoryFrame, RawEntry, make_room,
  open_result, schedule, schedule_pending_directory, is_none, Behavior, buffer_oldest,
  with_buffered, buffer_oldest_open_directory, directory_entries, sort_raw, insert_raw, compare_raw,
}
use weavatrix_scan.Walk.Visit.{at_max_depth, pend, after_error}
use weavatrix_scan.Walk.Iterate.{
  next_entry, with_post_entry, Step, take_root_entry, entry_step, root_step, pop_frame, Result,
  after_step, frames_loop, after_schedule, after_deferred, next, collect, collect_step,
}
use weavatrix_scan.Walk.Construction.{with_behavior}
use weavatrix_scan.Walk.Made.{with_behavior-Made}
use weavatrix_scan.Walk.Steps.{Keeps, root_step-keeps, entry_step-keeps, BeforeRaw}

-- What a directory has still to give.
abbrev pub raws : DirectoryEntries → List RawEntry
raws (opened entries) = entries
raws (buffered entries) = entries

abbrev pub total {ℓ} : {A : Type ℓ} → (A → ℕ) → List A → ℕ
total weight [] = 0
total weight (x ∷ xs) = weight x + total weight xs

abbrev pub raw_weight : (Bytes → ℕ) → RawEntry → ℕ
raw_weight below (inl source) = 1
raw_weight below (inr entry) = 4 + below entry.path

abbrev pub listing_weight : (RawEntry → ℕ) → Bytes ⊎ List RawEntry → ℕ
listing_weight weight (inl source) = 0
listing_weight weight (inr entries) = total weight entries

-- All that is reached below a directory, down to `levels` levels.
abbrev pub dir_weight : FileSystem → ℕ → Bytes → ℕ
dir_weight files zero path = 0
dir_weight files (suc levels) path =
    listing_weight (raw_weight (dir_weight files levels)) (files.read_dir path)

abbrev pub pending_weight : FileSystem → ℕ → Option PendingDirectory → ℕ
pending_weight files limit none = 0
pending_weight files limit (some pending) =
    3 + dir_weight files (limit - pending.depth) pending.path

abbrev pub frame_weight : FileSystem → ℕ → DirectoryFrame → ℕ
frame_weight files limit frame =
    1 + total (raw_weight (dir_weight files (limit - (frame.depth + 1)))) (raws frame.entries)

abbrev pub deferred_weight : Option WalkEntry → ℕ
deferred_weight none = 0
deferred_weight (some entry) = 1

pub deferred_weight-le : (entry : Option WalkEntry) → deferred_weight entry ≤ 1
deferred_weight-le none = omega arith
deferred_weight-le (some entry) = omega arith

abbrev pub root_weight : FileSystem → ℕ → Bool → Bytes → ℕ
root_weight files limit false root = 0
root_weight files limit true root = 4 + dir_weight files limit root

-- The weight of all that a walker has still to do.
abbrev pub weight : FileSystem → ℕ → Walker → ℕ
weight files limit walker =
    deferred_weight walker.deferred_entry
    + root_weight files limit walker.yield_root walker.root
    + pending_weight files limit walker.pending_directory
    + total (frame_weight files limit) walker.frames

abbrev pub PendingAbove : ℕ → Option PendingDirectory → Type 0
PendingAbove limit none = Unit
PendingAbove limit (some pending) = pending.depth < limit

-- The walker has the maximal depth `limit`, and all that it has entered is above that.
abbrev pub IsAbove : ℕ → Walker → Type 0
IsAbove limit walker =
    (walker.options.max_depth ≡ some limit)
    × (walker.plain_entries ≡ false)
    × PendingAbove limit walker.pending_directory
    × All (λ (frame : DirectoryFrame). frame.depth < limit) walker.frames

total-insert :
    (sorter : DirEntry → DirEntry → _) (f : RawEntry → ℕ) (x : RawEntry) (xs : List RawEntry)
    → total f (insert_raw sorter x xs) ≡ f x + total f xs
total-insert sorter f x [] = refl
total-insert sorter f x (y ∷ ys) = ground (arith, total-insert sorter f x ys)

total-sort :
    (sorter : DirEntry → DirEntry → _) (f : RawEntry → ℕ) (xs : List RawEntry)
    → total f (sort_raw sorter xs) ≡ total f xs
total-sort sorter f [] = refl
total-sort sorter f (x ∷ xs) =
    omega (arith, total-insert sorter f x (sort_raw sorter xs), total-sort sorter f xs)

pub total-directory_entries :
    (sorter : Option (DirEntry → DirEntry → _)) (f : RawEntry → ℕ) (xs : List RawEntry)
    → total f (raws (directory_entries sorter xs)) ≡ total f xs
total-directory_entries none f xs = refl
total-directory_entries (some sorter) f xs = total-sort sorter f xs

-- What the next entry takes off.
abbrev Splits : (RawEntry → ℕ) → DirectoryEntries → Option (RawEntry × DirectoryEntries) → Type 0
Splits f entries none = Unit
Splits f entries (some (raw, rest)) = total f (raws entries) ≡ f raw + total f (raws rest)

pub next_entry-Splits :
    (f : RawEntry → ℕ) (entries : DirectoryEntries) → Splits f entries (next_entry entries)
next_entry-Splits f (opened []) = tt
next_entry-Splits f (opened (x ∷ xs)) = refl
next_entry-Splits f (buffered []) = tt
next_entry-Splits f (buffered (x ∷ xs)) = refl
