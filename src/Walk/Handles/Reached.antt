-- ===== src/Walk/Handles/Reached.antt =====
-- Every walker that a caller can hold keeps its bound (src/walk_iter.rs, src/walker/construction.rs).
use mathlib.Core.Path.{subst}
use weavatrix_scan.Common.{
  ℕ, zero, suc, ◌+◌, ◌≤◌, ◌<◌, ◌≡◌, refl, sym, ap, ◌∙◌, false, Option, none, some, List, [], ◌∷◌,
  inl, inr, Bool-cases, Option-cases, if_elim, arith, if◌then◌else◌,
}
use weavatrix_scan.Text.{Bytes}
use weavatrix_scan.Walk.{WalkOptions, WalkError, WalkEntry, Item, at_least_one, DirectoryIdentity}
use weavatrix_scan.Walk.Files.{FileSystem}
use weavatrix_scan.Walk.Walker.{
  Walker, DirectoryEntries, opened, buffered, is_open, DirectoryFrame, RawEntry, Behavior,
  skip_current_dir, schedule_pending_directory,
}
use weavatrix_scan.Walk.Construction.{with_behavior, from_known_directory}
use weavatrix_scan.Walk.Iterate.{
  next_entry, Step, take_root_entry, entry_step, pop_frame, Result, after_step, frames_loop,
  after_schedule, after_deferred, next,
}
use weavatrix_scan.Walk.Handles.{
  open_count, IsBounded, after_error-IsBounded, schedule-IsBounded, skip_current_dir-IsBounded,
  StepBounded,
}
use weavatrix_scan.Walk.Made.{with_behavior-Made}
use weavatrix_scan.Walk.Handles.Steps.{root_step-IsBounded, entry_step-IsBounded}

-- What a call of `next` leaves, if it returns.
abbrev ResultBounded : Result → Type 0
ResultBounded none = Unit
ResultBounded (some (item, walker)) = IsBounded walker

-- An entry less leaves entries of the same kind.
abbrev SameKind : DirectoryEntries → Option (RawEntry × DirectoryEntries) → Type 0
SameKind entries none = Unit
SameKind entries (some (raw, rest)) = is_open rest ≡ is_open entries

next_entry-SameKind : (entries : DirectoryEntries) → SameKind entries (next_entry entries)
next_entry-SameKind (opened []) = tt
next_entry-SameKind (opened (x ∷ xs)) = refl
next_entry-SameKind (buffered []) = tt
next_entry-SameKind (buffered (x ∷ xs)) = refl

pop_frame-IsBounded :
    (walker : Walker) (frame : DirectoryFrame) (frames : List DirectoryFrame)
    → walker.frames ≡ frame ∷ frames
    → IsBounded walker
    → IsBounded (pop_frame walker frame frames)
pop_frame-IsBounded walker frame frames e h =
    let count : walker.open_handles ≡ open_count (frame ∷ frames) = h.0 ∙ ap open_count e in
    elim (Bool-cases (is_open frame.entries)) [
      | inl t ↦ let one = rw t at count in rw t (omega (arith, one), omega (arith, h), h.2)
      | inr f ↦ let none_less = rw f at count in rw f (omega (arith, none_less), h.1, h.2)
    ]

module _ (files : FileSystem) (again : Walker → Result)
    (h_again : (walker : Walker) → IsBounded walker → ResultBounded (again walker)) where
  after_step-IsBounded : (step : Step) → StepBounded step → ResultBounded (after_step again step)
  after_step-IsBounded (none, walker) h = h_again walker h
  after_step-IsBounded (some item, walker) h = h

  ended-IsBounded :
      (post : Option WalkEntry) (walker : Walker) (rest : Result)
      → IsBounded walker
      → ResultBounded rest
      → ResultBounded (elim post [ some entry ↦ some (some (inr entry), walker) | none ↦ rest ])
  ended-IsBounded none walker rest h hr = hr
  ended-IsBounded (some entry) walker rest h hr = h

  frames_loop-IsBounded :
      (walker : Walker) (frames : List DirectoryFrame)
      → walker.frames ≡ frames
      → IsBounded walker
      → ResultBounded (frames_loop files again walker frames)
  frames_loop-IsBounded walker [] e h = h
  frames_loop-IsBounded walker (frame ∷ frames) e h =
      let same = next_entry-SameKind frame.entries in
      let popped = pop_frame walker frame frames in
      let hp = pop_frame-IsBounded walker frame frames e h in
      elim (Option-cases (next_entry frame.entries)) [
        | inl n ↦
            rw (n, frames_loop)
              (ended-IsBounded frame.post_entry popped (frames_loop files again popped frames) hp
                (frames_loop-IsBounded popped frames refl hp))
        | inr ((raw, rest), s) ↦
            let kind = rw s at same in
            let count : walker.open_handles ≡ (if is_open rest then 1 else 0) + open_count frames =
              h.0
              ∙ ap open_count e
              ∙ ap (λ b. (if b then 1 else 0) + open_count frames) (sym kind) in
            rw (s, frames_loop)
              (after_step-IsBounded
                (entry_step files
                  (record walker { frames = record frame { entries = rest } ∷ frames }) frame.path
                  (frame.depth + 1) raw)
                (entry_step-IsBounded files
                  (record walker { frames = record frame { entries = rest } ∷ frames }) frame.path
                  (frame.depth + 1) raw (count, h.1, h.2)))
      ]

  after_schedule-IsBounded :
      (scheduled : Option WalkError × Walker)
      → StepBounded scheduled
      → ResultBounded (after_schedule files again scheduled)
  after_schedule-IsBounded (none, walker) h = frames_loop-IsBounded walker walker.frames refl h
  after_schedule-IsBounded (some error, walker) h =
      after_error-IsBounded walker walker.options.error_policy h

  after_deferred-IsBounded :
      (walker : Walker) (deferred : Option WalkEntry)
      → IsBounded walker
      → ResultBounded (after_deferred files again walker deferred)
  after_deferred-IsBounded walker (some entry) h = h
  after_deferred-IsBounded walker none h =
      if_elim ResultBounded walker.yield_root (after_step again (take_root_entry files walker))
        (after_schedule files again (schedule_pending_directory files walker))
        (λ e. after_step-IsBounded (take_root_entry files walker) (
          root_step-IsBounded files (record walker { yield_root = false }) walker.root_file_type h))
        (λ e.
          after_schedule-IsBounded (schedule_pending_directory files walker)
            (schedule-IsBounded files walker walker.pending_directory h))

next-IsBounded :
    (files : FileSystem) (fuel : ℕ) (walker : Walker)
    → IsBounded walker
    → ResultBounded (next files fuel walker)
unfolding next
next-IsBounded files zero walker h = tt
next-IsBounded files (suc fuel) walker h =
    if_elim ResultBounded walker.finished (some (none, walker))
      (after_deferred files (next files fuel) walker walker.deferred_entry) (λ e. h)
      (λ e.
        after_deferred-IsBounded files (next files fuel) (next-IsBounded files fuel) walker
          walker.deferred_entry h)

-- The walkers that a caller can hold: those that a constructor makes, and what the calls of its
-- methods make of them.
pub data Reached (files : FileSystem) : Walker → Type 0 where
  made :
      (root : Bytes) (options : WalkOptions) (behavior : Behavior) (walker : Walker)
      → with_behavior files root options behavior ≡ inr walker
      → Reached files walker
  known :
      (root directory : Bytes) (depth : ℕ) (options : WalkOptions) (root_file_system : Option ℕ)
      (identity : Option DirectoryIdentity) (active : List DirectoryIdentity)
      → Reached files
          (from_known_directory root directory depth options root_file_system identity active)
  stepped :
      (fuel : ℕ) (walker after : Walker) (item : Option Item)
      → Reached files walker
      → next files fuel walker ≡ some (item, after)
      → Reached files after
  skipped : (walker : Walker) → Reached files walker → Reached files (skip_current_dir walker)

at_least_one-positive : (n : ℕ) → 0 < at_least_one n
at_least_one-positive zero = omega arith
at_least_one-positive (suc n) = omega arith

result-IsBounded :
    (item : Option Item) (walker : Walker) (result : Result)
    → result ≡ some (item, walker)
    → ResultBounded result
    → IsBounded walker
result-IsBounded item walker result e h = subst ResultBounded e h

walker-IsBounded : (files : FileSystem) (walker : Walker) → Reached files walker → IsBounded walker
unfolding from_known_directory
walker-IsBounded files _ (made root options behavior walker e) =
    with_behavior-Made IsBounded files root options behavior walker
      (λ canonical metadata info. (refl, omega arith, at_least_one-positive options.max_open)) e
walker-IsBounded files _ (known root directory depth options root_file_system identity active) =
    (refl, omega arith, at_least_one-positive options.max_open)
walker-IsBounded files _ (stepped fuel walker after item r e) =
    result-IsBounded item after (next files fuel walker) e
      (next-IsBounded files fuel walker (walker-IsBounded files walker r))
walker-IsBounded files _ (skipped walker r) =
    skip_current_dir-IsBounded walker (walker-IsBounded files walker r)

-- A walker counts the directories that it has open, and they are never more than the bound of its
-- options, which is at least one: for every walker that a caller can reach by the methods of the walker.
pub Reached-IsBounded :
    (files : FileSystem) (walker : Walker)
    → Reached files walker
    → (walker.open_handles ≡ open_count walker.frames)
      × (open_count walker.frames ≤ walker.options.max_open)
      × (0 < walker.options.max_open)
Reached-IsBounded files walker r =
    let h = walker-IsBounded files walker r in (h.0, omega (arith, h), h.2)
