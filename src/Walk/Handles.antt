-- ===== src/Walk/Handles.antt =====
-- The bound on the directories that a walker keeps open (src/walker/mod.rs, src/walker/construction.rs).
mod Steps
pub mod Reached
use mathlib.Core.Path.{subst}
use weavatrix_scan.Common.{
  ℕ, zero, suc, ◌+◌, ◌-◌, ◌≤◌, ◌<◌, ◌≡◌, refl, sym, ap, ◌∙◌, Bool, true, false, ◌&&◌, ◌||◌, not,
  Option, none, some, List, [], ◌∷◌, ◌⊎◌, inl, inr, ◌==◌, leb, leb→le, Bool-cases, Option-cases,
  if_elim, arith, if◌then◌else◌,
}
use weavatrix_scan.Text.{Bytes}
use weavatrix_scan.Walk.{
  WalkOptions, WalkError, WalkEntry, ErrorPolicy, continue, abort, Item, normalized, at_least_one,
  DirectoryIdentity, ◌>>=◌, no_skip, error_at, WalkOperation,
}
use weavatrix_scan.Walk.Files.{FileSystem, FileType, DirEntry, Metadata, PlatformDirectoryInfo}
use weavatrix_scan.Walk.Walker.{
  Walker, PendingDirectory, DirectoryEntries, opened, buffered, is_open, DirectoryFrame, RawEntry,
  Behavior, is_none, skip_current_dir, buffer_oldest, buffer_oldest_open_directory, make_room,
  open_result, open_pending, with_buffered, directory_entries, schedule, schedule_pending_directory,
}
use weavatrix_scan.Walk.Construction.{
  with_behavior, from_known_directory, new_walker, root_allowed, canonical_root, root_info,
}
use weavatrix_scan.Walk.Visit.{
  Evidence, visit, visit_plain, plain_entry, walk_entry_of, pend, after_error, entry_facts,
  EntryFacts, visited,
}
use weavatrix_scan.Walk.Iterate.{
  next_entry, prune, accepts, is_stdout, with_post_entry, plain_step, prepared_step, visited_step,
  root_step, typed_step, entry_evidence, prepare_entry, Step, take_root_entry, entry_step,
  pop_frame, Result, after_step, frames_loop, after_schedule, after_deferred, next_with, next,
}

abbrev pub open_count : List DirectoryFrame → ℕ
open_count [] = 0
open_count (frame ∷ frames) = (if is_open frame.entries then 1 else 0) + open_count frames

-- The count of handles is that of the open frames, and within the bound.
abbrev pub IsBounded : Walker → Type 0
IsBounded walker =
    (walker.open_handles ≡ open_count walker.frames)
    × (walker.open_handles ≤ walker.options.max_open)
    × (0 < walker.options.max_open)

-- What making room does to the count: one frame was open and is not any more, or none was.
abbrev Fewer : List DirectoryFrame → Option (List DirectoryFrame) → Type 0
Fewer frames none = open_count frames ≡ 0
Fewer frames (some fewer) = open_count frames ≡ suc (open_count fewer)

abbrev buffer_first : DirectoryFrame → List DirectoryFrame → Option (List DirectoryFrame)
buffer_first frame frames = elim frame.entries [
  | opened entries ↦ some (record frame { entries = buffered entries } ∷ frames)
  | buffered entries ↦ none
]

buffer_first-Fewer :
    (frame : DirectoryFrame) (frames : List DirectoryFrame) (entries : DirectoryEntries)
    → frame.entries ≡ entries
    → open_count frames ≡ 0
    → Fewer (frame ∷ frames) (buffer_first frame frames)
buffer_first-Fewer frame frames (opened entries) e h = rw e (omega arith)
buffer_first-Fewer frame frames (buffered entries) e h = rw e (omega arith)

buffer_oldest-Fewer : (frames : List DirectoryFrame) → Fewer frames (buffer_oldest frames)
buffer_oldest-Fewer [] = refl
buffer_oldest-Fewer (frame ∷ frames) =
    let rest = buffer_oldest-Fewer frames in
    elim (Option-cases (buffer_oldest frames)) [
      | inl n ↦ rw n (buffer_first-Fewer frame frames frame.entries refl (rw n at rest))
      | inr (fewer, s) ↦ rw s (omega (arith, (rw s at rest)))
    ]

pub after_error-IsBounded :
    (walker : Walker) (policy : ErrorPolicy)
    → IsBounded walker
    → IsBounded (after_error policy walker)
after_error-IsBounded walker continue h = h
after_error-IsBounded walker abort h = (refl, omega arith, h.2)

-- There is room for one handle more.
abbrev HasRoom : Walker → Type 0
HasRoom walker = IsBounded walker × (walker.open_handles < walker.options.max_open)

buffered-HasRoom :
    (walker : Walker) (o : Option (List DirectoryFrame))
    → IsBounded walker
    → walker.options.max_open ≤ walker.open_handles
    → Fewer walker.frames o
    → HasRoom (with_buffered walker o)
buffered-HasRoom walker none h full fewer = absurd (omega (arith, h, fewer))
buffered-HasRoom walker (some frames) h full fewer =
    ((omega (arith, h, fewer), omega (arith, h), h.2), omega (arith, h, fewer))

make_room-HasRoom : (walker : Walker) → IsBounded walker → HasRoom (make_room walker)
make_room-HasRoom walker h =
    if_elim HasRoom (leb walker.options.max_open walker.open_handles)
      (buffer_oldest_open_directory walker) walker
      (λ full.
        buffered-HasRoom walker (buffer_oldest walker.frames) h (leb→le _ _ full)
          (buffer_oldest-Fewer walker.frames))
      (λ room. (h, ground arith))

open_result-IsBounded :
    (walker : Walker) (pending : PendingDirectory) (raw : Bytes ⊎ List RawEntry)
    → HasRoom walker
    → IsBounded (open_result walker pending raw).1
open_result-IsBounded walker pending (inl source) (h, room) = h
open_result-IsBounded walker pending (inr entries) (h, room) =
    let opened_now : ℕ = if is_open (directory_entries walker.sorter entries) then 1 else 0 in
    let one : opened_now ≤ 1 =
      if_elim (λ n. n ≤ 1) (is_open (directory_entries walker.sorter entries)) 1 0
        (λ e. omega arith) (λ e. omega arith) in
    (omega (arith, h), omega (arith, room, one), h.2)

pub schedule-IsBounded :
    (files : FileSystem) (walker : Walker) (pending : Option PendingDirectory)
    → IsBounded walker
    → IsBounded (schedule files walker pending).1
schedule-IsBounded files walker none h = h
schedule-IsBounded files walker (some pending) h =
    if_elim (λ (s : Option WalkError × Walker). IsBounded s.1) walker.skip_pending_directory
      (none, record walker { pending_directory = none; skip_pending_directory = false })
      (open_result (make_room (record walker { pending_directory = none })) pending
        (files.read_dir pending.path))
      (λ e. h)
      (λ e.
        open_result-IsBounded (make_room (record walker { pending_directory = none })) pending
          (files.read_dir pending.path)
          (make_room-HasRoom (record walker { pending_directory = none }) h))

pub skip_current_dir-IsBounded :
    (walker : Walker) → IsBounded walker → IsBounded (skip_current_dir walker)
skip_current_dir-IsBounded walker h =
    if_elim IsBounded (is_none walker.pending_directory) walker
      (record walker { skip_pending_directory = true }) (λ e. h) (λ e. h)

-- Steps that leave the walker bounded.
abbrev pub StepBounded {ℓ} : {A : Type ℓ} → A × Walker → Type 0
StepBounded step = IsBounded step.1
