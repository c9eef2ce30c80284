-- ===== src/Walk/Ends/Schedule.antt =====
-- The weight of opening a directory (src/walker/construction.rs).
use mathlib.Core.Path.{subst}
use weavatrix_scan.Common.{
  ℕ, suc, ◌+◌, ◌-◌, ◌≤◌, ◌<◌, ◌≡◌, ◌≢◌, refl, ap, ◌∙◌, false, Option, none, some, List, [], ◌∷◌,
  ◌⊎◌, inl, inr, leb, Option-cases, if_elim, arith, All,
}
use weavatrix_scan.Text.{Bytes}
use weavatrix_scan.Walk.{WalkError}
use weavatrix_scan.Walk.Files.{FileSystem}
use weavatrix_scan.Walk.Walker.{
  Walker, PendingDirectory, DirectoryEntries, opened, buffered, DirectoryFrame, RawEntry, make_room,
  open_result, schedule, buffer_oldest, with_buffered, buffer_oldest_open_directory,
}
use weavatrix_scan.Walk.Ends.{
  total, raw_weight, listing_weight, dir_weight, pending_weight, frame_weight, deferred_weight,
  deferred_weight-le, weight, PendingAbove, IsAbove, total-directory_entries,
}

-- What is buffered weighs the same.
abbrev Same : FileSystem → ℕ → List DirectoryFrame → Option (List DirectoryFrame) → Type 0
Same files limit frames none = Unit
Same files limit frames (some others) =
    (total (frame_weight files limit) others ≡ total (frame_weight files limit) frames)
    × (All (λ (frame : DirectoryFrame). frame.depth < limit) frames
        → All (λ (frame : DirectoryFrame). frame.depth < limit) others)

abbrev buffer_first : DirectoryFrame → List DirectoryFrame → Option (List DirectoryFrame)
buffer_first frame frames = elim frame.entries [
  | opened entries ↦ some (record frame { entries = buffered entries } ∷ frames)
  | buffered entries ↦ none
]

buffer_first-Same :
    (files : FileSystem) (limit : ℕ) (frame : DirectoryFrame) (frames : List DirectoryFrame)
    (entries : DirectoryEntries)
    → frame.entries ≡ entries
    → Same files limit (frame ∷ frames) (buffer_first frame frames)
buffer_first-Same files limit frame frames (opened entries) e = rw e (refl, λ h. h)
buffer_first-Same files limit frame frames (buffered entries) e = rw e tt

buffer_oldest-Same :
    (files : FileSystem) (limit : ℕ) (frames : List DirectoryFrame)
    → Same files limit frames (buffer_oldest frames)
buffer_oldest-Same files limit [] = tt
buffer_oldest-Same files limit (frame ∷ frames) =
    let rest = buffer_oldest-Same files limit frames in
    elim (Option-cases (buffer_oldest frames)) [
      | inl n ↦ rw n (buffer_first-Same files limit frame frames frame.entries refl)
      | inr (others, s) ↦
          let same = rw s at rest in rw s (omega (arith, same.0), λ h. (h.0, same.1 h.1))
    ]

module _ (files : FileSystem) (limit bound : ℕ) where
  abbrev Within : Walker → Type 0
  Within walker =
      IsAbove limit walker × (weight files limit walker ≤ bound) × (walker.deferred_entry ≡ none)

  with_buffered-Within :
      (walker : Walker) (others : Option (List DirectoryFrame))
      → Same files limit walker.frames others
      → Within walker
      → Within (with_buffered walker others)
  with_buffered-Within walker none same h = h
  with_buffered-Within walker (some others) same ((max, plain, pending, frames), small, n) =
      ((max, plain, pending, same.1 frames), omega (arith, same.0, small), n)

  make_room-Within : (walker : Walker) → Within walker → Within (make_room walker)
  make_room-Within walker h =
      if_elim Within (leb walker.options.max_open walker.open_handles)
        (buffer_oldest_open_directory walker) walker
        (λ e.
          with_buffered-Within walker (buffer_oldest walker.frames)
            (buffer_oldest-Same files limit walker.frames) h)
        (λ e. h)

-- What opening the pending directory gives.
abbrev Scheduled : FileSystem → ℕ → ℕ → Option WalkError × Walker → Type 0
Scheduled files limit bound scheduled =
    IsAbove limit scheduled.1
    × (weight files limit scheduled.1 ≤ bound)
    × (scheduled.0 ≢ none → weight files limit scheduled.1 < bound)

dir_weight-suc :
    (files : FileSystem) (limit depth : ℕ) (path : Bytes)
    → depth < limit
    → dir_weight files (limit - depth) path
      ≡ listing_weight (raw_weight (dir_weight files (limit - (depth + 1)))) (files.read_dir path)
dir_weight-suc files limit depth path h =
    let step : limit - depth ≡ suc (limit - (depth + 1)) = omega (arith, h) in
    ap (λ n. dir_weight files n path) step

open_result-Scheduled :
    (files : FileSystem) (limit bound : ℕ) (walker : Walker) (pending : PendingDirectory)
    (raw : Bytes ⊎ List RawEntry)
    → files.read_dir pending.path ≡ raw
    → pending.depth < limit
    → Within files limit bound walker
    → Scheduled files limit
        (bound + 3 + dir_weight files (limit - pending.depth) pending.path)
        (open_result walker pending raw)
open_result-Scheduled files limit bound walker pending (inl source) e d h =
    let one : deferred_weight pending.post_entry ≤ 1 = deferred_weight-le pending.post_entry in
    (h.0, omega (arith, one, h.1), λ error. omega (arith, one, h.1))
open_result-Scheduled files limit bound walker pending (inr entries) e d h =
    let f = raw_weight (dir_weight files (limit - (pending.depth + 1))) in
    let listing : dir_weight files (limit - pending.depth) pending.path ≡ total f entries =
      dir_weight-suc files limit pending.depth pending.path d ∙ ap (listing_weight f) e in
    let sorted = total-directory_entries walker.sorter f entries in
    (
      (h.0.0, h.0.1, h.0.2, (d, h.0.3)),
      omega (arith, listing, sorted, h.1),
      λ wrong. absurd (wrong refl),
    )

pub schedule-Scheduled :
    (files : FileSystem) (limit : ℕ) (walker : Walker) (pending : Option PendingDirectory)
    → walker.pending_directory ≡ pending
    → walker.deferred_entry ≡ none
    → IsAbove limit walker
    → Scheduled files limit (weight files limit walker) (schedule files walker pending)
schedule-Scheduled files limit walker none e n h = (h, omega arith, λ wrong. absurd (wrong refl))
schedule-Scheduled files limit walker (some pending) e n h =
    let idle : Walker = record walker { pending_directory = none } in
    let below = weight files limit idle in
    let d : pending.depth < limit = subst (PendingAbove limit) e h.2 in
    let same : weight files limit walker
        ≡ below + 3 + dir_weight files (limit - pending.depth) pending.path =
      omega (arith, ap (pending_weight files limit) e) in
    let hi : Within files limit below idle = ((h.0, h.1, tt, h.3), omega arith, n) in
    let room = make_room idle in
    let opened_now =
      open_result-Scheduled files limit below room pending (files.read_dir pending.path) refl d
        (make_room-Within files limit below idle hi) in
    if_elim (Scheduled files limit (weight files limit walker)) walker.skip_pending_directory
      (none, record idle { skip_pending_directory = false })
      (open_result room pending (files.read_dir pending.path))
      (λ skip. ((h.0, h.1, tt, h.3), omega (arith, same), λ wrong. absurd (wrong refl)))
      (λ go. (
        opened_now.0,
        omega (arith, same, opened_now.1),
        λ error. let lower = opened_now.2 error in omega (arith, same, lower),
      ))
