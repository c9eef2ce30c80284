-- ===== src/Walk/Iterate.antt =====
-- The iteration of a walker (src/walk_iter.rs) and of a builder's walker over several roots
-- (src/walk_builder.rs). `none` on the outside stands for fuel that ran out.
use weavatrix_scan.Common.{
  ℕ, zero, suc, ◌+◌, ◌-◌, Bool, true, false, ◌&&◌, not, Option, none, some, List, [], ◌∷◌, ◌⊎◌, inl,
  inr, ◌==◌, leb, if◌then◌else◌,
}
use weavatrix_scan.Text.{Bytes, bytes}
use weavatrix_scan.Report.{FileIdentity}
use weavatrix_scan.Walk.{
  WalkError, WalkEntry, WalkOperation, Item, walk_error, error_at, ◌>>=◌, remove_identity, no_skip,
}
use weavatrix_scan.Walk.Files.{FileSystem, FileType, Metadata, DirEntry, is_file, path_matches}
use weavatrix_scan.Walk.Walker.{
  Walker, PendingDirectory, DirectoryEntries, opened, buffered, is_open, DirectoryFrame, RawEntry,
  skip_current_dir, schedule_pending_directory,
}
use weavatrix_scan.Walk.Visit.{
  Evidence, no_evidence, metadata_evidence, visit, visit_plain, yield_error,
}

-- `DirectoryEntries::next`.
abbrev pub next_entry : DirectoryEntries → Option (RawEntry × DirectoryEntries)
next_entry (opened []) = none
next_entry (opened (entry ∷ entries)) = some (entry, opened entries)
next_entry (buffered []) = none
next_entry (buffered (entry ∷ entries)) = some (entry, buffered entries)

abbrev pub accepts : Option (WalkEntry → Bool) → WalkEntry → Bool
accepts none entry = true
accepts (some filter) entry = filter entry

abbrev pub is_stdout : FileSystem → Option FileIdentity → WalkEntry → Bool
is_stdout files none entry = false
is_stdout files (some identity) entry = path_matches files entry.path identity

abbrev pub with_post_entry : WalkEntry → Option PendingDirectory → Option PendingDirectory
with_post_entry entry none = none
with_post_entry entry (some pending) = some (record pending { post_entry = some entry })

-- A directory that a filter rejects is not entered; the root's rejection ends the walk.
abbrev pub prune : Walker → WalkEntry → Walker
prune walker entry =
    if entry.is_directory
    then (let skipped = skip_current_dir walker in
        if entry.depth == 0 then record skipped { finished = true } else skipped)
    else walker

-- `Walker::prepare_entry`.
abbrev pub prepare_entry : FileSystem → Walker → WalkEntry → Option WalkEntry × Walker
prepare_entry files walker entry =
    if entry.is_file && is_stdout files walker.skip_stdout entry
    then (none, walker)
    else if not (accepts walker.filter entry)
    then (none, prune walker entry)
    else if walker.contents_first && (entry.is_directory && no_skip entry.skip_reason)
    then (
      none,
      if leb walker.options.min_depth entry.depth
          then record walker { pending_directory = with_post_entry entry walker.pending_directory }
          else walker,
    )
    else (if leb walker.options.min_depth entry.depth then some entry else none, walker)

-- A yield, or the walker with which the loop goes on.
abbrev pub Step : Type 0
Step = Option Item × Walker

abbrev some_item : Item × Walker → Step
some_item (item, walker) = (some item, walker)

abbrev pub prepared_step : Option WalkEntry × Walker → Step
prepared_step (none, walker) = (none, walker)
prepared_step (some entry, walker) = (some (inr entry), walker)

abbrev pub visited_step : FileSystem → Walker → WalkError ⊎ (WalkEntry × Walker) → Step
visited_step files walker (inl error) = some_item (yield_error walker error)
visited_step files walker (inr (entry, after)) = prepared_step (prepare_entry files after entry)

abbrev pub plain_step : WalkEntry × Walker → Step
plain_step (entry, walker) = (some (inr entry), walker)

abbrev pub root_step : FileSystem → Walker → Option FileType → Step
root_step files walker none = some_item (
    yield_error walker
      (walk_error walker.root 0 WalkOperation.read_metadata (bytes "root metadata is present")))
root_step files walker (some file_type) =
    if walker.plain_entries
    then plain_step (visit_plain walker walker.root 0 file_type)
    else visited_step files walker (
        visit files walker walker.root 0 (some file_type)
          (record { bytes = walker.root_bytes; version = walker.root_version; hidden = none }))

-- `Walker::take_root_entry`.
abbrev pub take_root_entry : FileSystem → Walker → Step
take_root_entry files walker =
    root_step files (record walker { yield_root = false }) walker.root_file_type

-- The metadata of an entry, where the options ask for it.
abbrev pub entry_evidence : Walker → Bytes → ℕ → FileType → Bytes ⊎ Metadata → WalkError ⊎ Evidence
entry_evidence walker path depth file_type metadata =
    if walker.options.collect_metadata && is_file file_type
    then (error_at path depth WalkOperation.read_metadata metadata >>= λ known.
        inr (metadata_evidence path known))
    else inr no_evidence

abbrev pub typed_step : FileSystem → Walker → ℕ → DirEntry → WalkError ⊎ FileType → Step
typed_step files walker depth entry (inl error) = some_item (yield_error walker error)
typed_step files walker depth entry (inr file_type) =
    if walker.plain_entries
    then plain_step (visit_plain walker entry.path depth file_type)
    else visited_step files walker (
        entry_evidence walker entry.path depth file_type entry.metadata >>= λ evidence.
        visit files walker entry.path depth (some file_type) evidence)

-- One entry of the directory `path`.
abbrev pub entry_step : FileSystem → Walker → Bytes → ℕ → RawEntry → Step
entry_step files walker path depth (inl source) =
    some_item (yield_error walker (walk_error path depth WalkOperation.read_entry source))
entry_step files walker path depth (inr entry) =
    typed_step files walker depth entry
      (error_at entry.path depth WalkOperation.read_metadata entry.file_type)

-- The last frame is at its end.
abbrev pub pop_frame : Walker → DirectoryFrame → List DirectoryFrame → Walker
pop_frame walker frame frames = record walker {
  frames = frames;
  open_handles = if is_open frame.entries then walker.open_handles - 1 else walker.open_handles;
  active_directories = remove_identity frame.identity walker.active_directories;
}

-- What a call of `next` gives: an entry, an error, or the end.
abbrev pub Result : Type 0
Result = Option (Option Item × Walker)

abbrev pub after_step : (Walker → Result) → Step → Result
after_step again (none, walker) = again walker
after_step again (some item, walker) = some (some item, walker)

-- The inner loop, over the frames of the walker.
abbrev pub frames_loop : FileSystem → (Walker → Result) → Walker → List DirectoryFrame → Result
frames_loop files again walker [] = some (none, walker)
frames_loop files again walker (frame ∷ frames) = elim (next_entry frame.entries) [
  | some (entry, entries) ↦ after_step again (
      entry_step files (record walker { frames = record frame { entries = entries } ∷ frames })
        frame.path (frame.depth + 1) entry)
  | none ↦
      let popped = pop_frame walker frame frames in
      let rest = frames_loop files again popped frames in
      elim frame.post_entry [ some entry ↦ some (some (inr entry), popped) | none ↦ rest ]
]

abbrev pub after_schedule : FileSystem → (Walker → Result) → Option WalkError × Walker → Result
after_schedule files again (some error, walker) =
    after_step again (some_item (yield_error walker error))
after_schedule files again (none, walker) = frames_loop files again walker walker.frames

abbrev pub after_deferred : FileSystem → (Walker → Result) → Walker → Option WalkEntry → Result
after_deferred files again walker (some entry) =
    some (some (inr entry), record walker { deferred_entry = none })
after_deferred files again walker none =
    if walker.yield_root
    then after_step again (take_root_entry files walker)
    else after_schedule files again (schedule_pending_directory files walker)

-- The next of `deferred_entry`, the root and the frames.
abbrev pub next_with : FileSystem → (Walker → Result) → Walker → Result
next_with files again walker =
    if walker.finished
    then some (none, walker)
    else after_deferred files again walker walker.deferred_entry

-- `Iterator::next`, the loop `'walk`.
unfoldable pub next : FileSystem → ℕ → Walker → Result
next files zero walker = none
next files (suc fuel) walker = next_with files (next files fuel) walker

abbrev pub collect_step : (Walker → Option (List Item)) → Result → Option (List Item)
collect_step rest none = none
collect_step rest (some (none, walker)) = some []
collect_step rest (some (some item, walker)) = elim (rest walker) [
  | none ↦ none
  | some items ↦ some (item ∷ items)
]

-- All that a walker yields, on fuel for the calls and for each call.
unfoldable pub collect : FileSystem → ℕ → Walker → Option (List Item)
collect files zero walker = none
collect files (suc fuel) walker = collect_step (collect files fuel) (next files (suc fuel) walker)
