-- ===== src/Walk/Steps.antt =====
-- What one step of a walker keeps (src/walk_visit.rs, src/walk_iter.rs), for any property of its state:
-- the lemmas of one place go through all the branches of a visit.
use weavatrix_scan.Common.{
  ℕ, ◌≡◌, refl, Bool, true, false, ◌&&◌, not, Option, none, some, ◌⊎◌, inl, inr, ◌==◌, leb,
  Bool-cases, if_elim, if◌then◌else◌,
}
use weavatrix_scan.Text.{Bytes}
use weavatrix_scan.Walk.{WalkError, WalkEntry, WalkOperation, error_at, ◌>>=◌, no_skip}
use weavatrix_scan.Walk.Files.{FileSystem, FileType, DirEntry}
use weavatrix_scan.Walk.Walker.{Walker, RawEntry, skip_current_dir, is_none}
use weavatrix_scan.Walk.Visit.{
  Evidence, EntryFacts, at_max_depth, skip_reason_of, walk_entry_of, plain_entry, pend, visit,
  visit_plain, visited, entry_facts, after_error,
}
use weavatrix_scan.Walk.Iterate.{
  accepts, is_stdout, prune, with_post_entry, prepare_entry, prepared_step, visited_step,
  plain_step, root_step, typed_step, entry_evidence, entry_step,
}

and_left : (a b : Bool) → (a && b) ≡ true → a ≡ true
and_left true b h = refl
and_left false b h = h

and_right : (a b : Bool) → (a && b) ≡ true → b ≡ true
and_right true b h = h
and_right false b h = absurd (cc)

-- A directory at the maximal depth is skipped.
skip_reason_of-deep :
    (walker : Walker) (depth : ℕ) (facts : EntryFacts)
    → (facts.is_directory && no_skip (skip_reason_of walker depth facts)) ≡ true
    → at_max_depth walker.options.max_depth depth ≡ false
skip_reason_of-deep walker depth facts h =
    let directory = and_left facts.is_directory _ h in
    let entered = and_right facts.is_directory _ h in
    elim (Bool-cases (facts.is_directory && no_skip facts.skip_reason)) [
      | inl t ↦ elim (Bool-cases (at_max_depth walker.options.max_depth depth)) [
        | inl deep ↦ let bad = rw (t, deep) at entered in absurd (cc)
        | inr shallow ↦ shallow
      ]
      | inr f ↦ let free = rw f at entered in let bad = rw (directory, free) at f in absurd (cc)
    ]

-- `Before path depth` holds in front of a visit of that path, `After` behind it.
pub record Keeps (Before : Bytes → ℕ → Walker → Type 0) (After : Walker → Type 0) : Type 0 where
  pub on_error :
      (path : Bytes) (depth : ℕ) (walker : Walker)
      → Before path depth walker
      → After (after_error walker.options.error_policy walker)
  pub on_leaf :
      (path : Bytes) (depth : ℕ) (walker : Walker) → Before path depth walker → After walker
  pub on_directory :
      (path : Bytes) (depth : ℕ) (walker : Walker)
      → Before path depth walker
      → (walker.plain_entries ≡ true) ⊎ (at_max_depth walker.options.max_depth depth ≡ false)
      → (identity : _) → After (pend walker path depth identity)
  pub on_skip :
      (walker : Walker) → After walker → After (record walker { skip_pending_directory = true })
  pub on_finish : (walker : Walker) → After walker → After (record walker { finished = true })
  pub on_post :
      (walker : Walker) (entry : WalkEntry)
      → After walker
      → After (record walker { pending_directory = with_post_entry entry walker.pending_directory })

module _ {Before : Bytes → ℕ → Walker → Type 0} {After : Walker → Type 0}
    (keeps : Keeps Before After) where
  -- The walker behind a step.
  abbrev StepKeeps {ℓ} : {A : Type ℓ} → A × Walker → Type 0
  StepKeeps step = After step.1

  skip_current_dir-keeps : (walker : Walker) → After walker → After (skip_current_dir walker)
  skip_current_dir-keeps walker h =
      if_elim After (is_none walker.pending_directory) walker
        (record walker { skip_pending_directory = true }) (λ e. h) (λ e. keeps.on_skip walker h)

  prune-keeps : (walker : Walker) (entry : WalkEntry) → After walker → After (prune walker entry)
  prune-keeps walker entry h =
      let skipped = skip_current_dir walker in
      let hs = skip_current_dir-keeps walker h in
      let hf : After (record skipped { finished = true }) = keeps.on_finish skipped hs in
      if_elim After entry.is_directory
        (if entry.depth == 0 then record skipped { finished = true } else skipped) walker
        (λ e.
          if_elim After (entry.depth == 0) (record skipped { finished = true }) skipped (λ e. hf)
            (λ e. hs))
        (λ e. h)

  prepare_entry-keeps :
      (files : FileSystem) (walker : Walker) (entry : WalkEntry)
      → After walker
      → StepKeeps (prepare_entry files walker entry)
  prepare_entry-keeps files walker entry h =
      let deferred = record walker {
        pending_directory = with_post_entry entry walker.pending_directory;
      } in
      let deep = leb walker.options.min_depth entry.depth in
      let later : Option WalkEntry × Walker = (none, if deep then deferred else walker) in
      let now : Option WalkEntry × Walker = (if deep then some entry else none, walker) in
      let is_later = walker.contents_first && (entry.is_directory && no_skip entry.skip_reason) in
      let rejected = not (accepts walker.filter entry) in
      if_elim StepKeeps (entry.is_file && is_stdout files walker.skip_stdout entry) (none, walker)
        (if rejected then (none, prune walker entry) else if is_later then later else now) (λ e. h)
        (λ e.
          if_elim StepKeeps rejected (none, prune walker entry) (if is_later then later else now)
            (λ e. prune-keeps walker entry h)
            (λ e.
              if_elim StepKeeps is_later later now
                (λ e.
                  if_elim After deep deferred walker (λ e. keeps.on_post walker entry h) (λ e. h))
                (λ e. h)))

  prepared_step-keeps :
      (prepared : Option WalkEntry × Walker)
      → StepKeeps prepared
      → StepKeeps (prepared_step prepared)
  prepared_step-keeps (none, walker) h = h
  prepared_step-keeps (some entry, walker) h = h

  -- A visit, whatever was found of the path.
  visited_step-keeps :
      (files : FileSystem) (walker : Walker) (path : Bytes) (depth : ℕ)
      (found : WalkError ⊎ (EntryFacts × Evidence))
      → Before path depth walker
      → StepKeeps (visited_step files walker (found >>= λ f. inr (visited walker path depth f)))
  visited_step-keeps files walker path depth (inl error) h = keeps.on_error path depth walker h
  visited_step-keeps files walker path depth (inr (facts, evidence)) h =
      let entry = walk_entry_of walker path depth facts evidence in
      let down = entry.is_directory && no_skip entry.skip_reason in
      let after = if down then pend walker path depth facts.directory_identity else walker in
      prepared_step-keeps (prepare_entry files after entry) (
        prepare_entry-keeps files after entry (
          if_elim After down (pend walker path depth facts.directory_identity) walker
            (λ e.
              keeps.on_directory path depth walker h
                (inr (skip_reason_of-deep walker depth facts e)) facts.directory_identity)
            (λ e. keeps.on_leaf path depth walker h)))

  evidence_step-keeps :
      (files : FileSystem) (walker : Walker) (path : Bytes) (depth : ℕ) (known : Option FileType)
      (evidence : WalkError ⊎ Evidence)
      → Before path depth walker
      → StepKeeps
          (visited_step files walker (evidence >>= λ e. visit files walker path depth known e))
  evidence_step-keeps files walker path depth known (inl error) h =
      keeps.on_error path depth walker h
  evidence_step-keeps files walker path depth known (inr evidence) h =
      visited_step-keeps files walker path depth
        (entry_facts files walker path depth known evidence) h

  -- A path whose type is known, plain or not.
  known_step-keeps :
      (files : FileSystem) (walker : Walker) (path : Bytes) (depth : ℕ) (file_type : FileType)
      (evidence : WalkError ⊎ Evidence)
      → Before path depth walker
      → StepKeeps (
          if walker.plain_entries
          then plain_step (visit_plain walker path depth file_type)
          else visited_step files walker
              (evidence >>= λ e. visit files walker path depth (some file_type) e))
  known_step-keeps files walker path depth file_type evidence h =
      let entry = plain_entry walker path depth file_type in
      if_elim StepKeeps walker.plain_entries (plain_step (visit_plain walker path depth file_type))
        (visited_step files walker
          (evidence >>= λ e. visit files walker path depth (some file_type) e))
        (λ plain.
          if_elim After entry.is_directory (pend walker path depth none) walker
            (λ e. keeps.on_directory path depth walker h (inl plain) none)
            (λ e. keeps.on_leaf path depth walker h))
        (λ e. evidence_step-keeps files walker path depth (some file_type) evidence h)

  pub root_step-keeps :
      (files : FileSystem) (walker : Walker) (known : Option FileType)
      → Before walker.root 0 walker
      → StepKeeps (root_step files walker known)
  root_step-keeps files walker none h = keeps.on_error walker.root 0 walker h
  root_step-keeps files walker (some file_type) h =
      known_step-keeps files walker walker.root 0 file_type
        (inr (record { bytes = walker.root_bytes; version = walker.root_version; hidden = none })) h

  typed_step-keeps :
      (files : FileSystem) (walker : Walker) (depth : ℕ) (entry : DirEntry)
      (known : WalkError ⊎ FileType)
      → Before entry.path depth walker
      → StepKeeps (typed_step files walker depth entry known)
  typed_step-keeps files walker depth entry (inl error) h = keeps.on_error entry.path depth walker h
  typed_step-keeps files walker depth entry (inr file_type) h =
      known_step-keeps files walker entry.path depth file_type
        (entry_evidence walker entry.path depth file_type entry.metadata) h

  -- What stands in front of the visit of an entry.
  abbrev pub BeforeRaw : ℕ → RawEntry → Walker → Type 0
  BeforeRaw depth (inl source) walker = After (after_error walker.options.error_policy walker)
  BeforeRaw depth (inr entry) walker = Before entry.path depth walker

  pub entry_step-keeps :
      (files : FileSystem) (walker : Walker) (path : Bytes) (depth : ℕ) (raw : RawEntry)
      → BeforeRaw depth raw walker
      → StepKeeps (entry_step files walker path depth raw)
  entry_step-keeps files walker path depth (inl source) h = h
  entry_step-keeps files walker path depth (inr entry) h =
      typed_step-keeps files walker depth entry
        (error_at entry.path depth WalkOperation.read_metadata entry.file_type) h
