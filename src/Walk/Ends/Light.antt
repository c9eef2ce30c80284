-- ===== src/Walk/Ends/Light.antt =====
-- The weight of one step (src/walk_visit.rs, src/walk_iter.rs).
use mathlib.Core.Path.{subst}
use weavatrix_scan.Common.{
  ℕ, ◌+◌, ◌-◌, ◌≤◌, ◌<◌, ◌≡◌, ◌≢◌, refl, sym, ap, ◌∙◌, true, false, Option, none, some, List, [],
  ◌∷◌, ◌⊎◌, inl, inr, leb, Option-cases, arith, All,
}
use weavatrix_scan.Text.{Bytes}
use weavatrix_scan.Walk.{WalkError, WalkEntry, ErrorPolicy, continue, abort}
use weavatrix_scan.Walk.Files.{FileSystem}
use weavatrix_scan.Walk.Walker.{Walker, PendingDirectory, DirectoryFrame, RawEntry}
use weavatrix_scan.Walk.Visit.{at_max_depth, after_error}
use weavatrix_scan.Walk.Iterate.{
  next_entry, with_post_entry, Step, entry_step, pop_frame, Result, after_step, frames_loop,
  after_schedule,
}
use weavatrix_scan.Walk.Steps.{Keeps, entry_step-keeps, BeforeRaw}
use weavatrix_scan.Walk.Ends.{
  total, raw_weight, dir_weight, pending_weight, frame_weight, weight, PendingAbove, IsAbove,
  next_entry-Splits,
}

module _ (files : FileSystem) (limit bound : ℕ) where
  abbrev pub Light : Walker → Type 0
  Light walker = IsAbove limit walker × (weight files limit walker < bound)

  abbrev Before : Bytes → ℕ → Walker → Type 0
  Before path depth walker =
      IsAbove limit walker
      × (weight files limit walker + 3 + dir_weight files (limit - depth) path < bound)

  after_error-Light :
      (walker : Walker) (policy : ErrorPolicy) → Light walker → Light (after_error policy walker)
  after_error-Light walker continue h = h
  after_error-Light walker abort ((max, plain, pending, frames), h) =
      ((max, plain, tt, tt), omega (arith, h))

  pub shallow :
      (walker : Walker) (depth : ℕ)
      → IsAbove limit walker
      → (walker.plain_entries ≡ true) ⊎ (at_max_depth walker.options.max_depth depth ≡ false)
      → depth < limit
  shallow walker depth h (inl plain) = absurd (cc (h.1))
  shallow walker depth h (inr above) =
      let test : leb limit depth ≡ false = ap (λ m. at_max_depth m depth) (sym h.0) ∙ above in
      ground (arith)

  post-Light :
      (walker : Walker) (entry : WalkEntry) (pending : Option PendingDirectory)
      → PendingAbove limit pending
      → PendingAbove limit (with_post_entry entry pending)
        × (pending_weight files limit (with_post_entry entry pending)
            ≡ pending_weight files limit pending)
  post-Light walker entry none h = (tt, refl)
  post-Light walker entry (some pending) h = (h, refl)

  pub light : Keeps Before Light
  light = record {
    on_error = λ path depth walker h.
        after_error-Light walker walker.options.error_policy (h.0, omega (arith, h.1));
    on_leaf = λ path depth walker h. (h.0, omega (arith, h.1));
    on_directory = λ path depth walker h why identity.
        ((h.0.0, h.0.1, shallow walker depth h.0 why, h.0.3), omega (arith, h.1));
    on_skip = λ walker h. h;
    on_finish = λ walker h. h;
    on_post = λ walker entry h.
        let (above, same) = post-Light walker entry walker.pending_directory h.0.2 in
        ((h.0.0, h.0.1, above, h.0.3), omega (arith, h.1, same));
  }

  -- What a call of `next` gives: not that its fuel ran out, and behind an item a lighter walker.
  abbrev pub LightResult : Result → Type 0
  LightResult none = ⊥
  LightResult (some (none, walker)) = Unit
  LightResult (some (some item, walker)) = Light walker

  module _ (again : Walker → Result)
      (h_again : (walker : Walker) → Light walker → LightResult (again walker)) where
    pub after_step-Light : (step : Step) → Light step.1 → LightResult (after_step again step)
    after_step-Light (none, walker) h = h_again walker h
    after_step-Light (some item, walker) h = h

    ended-Light :
        (post : Option WalkEntry) (walker : Walker) (rest : Result)
        → Light walker
        → LightResult rest
        → LightResult (elim post [ some entry ↦ some (some (inr entry), walker) | none ↦ rest ])
    ended-Light none walker rest h hr = hr
    ended-Light (some entry) walker rest h hr = h

    raw-Light :
        (walker : Walker) (depth : ℕ) (raw : RawEntry)
        → IsAbove limit walker
        → weight files limit walker + raw_weight (dir_weight files (limit - depth)) raw ≤ bound
        → BeforeRaw light depth raw walker
    raw-Light walker depth (inl source) h small =
        after_error-Light walker walker.options.error_policy (h, omega (arith, small))
    raw-Light walker depth (inr entry) h small = (h, omega (arith, small))

    frames_loop-Light :
        (walker : Walker) (frames : List DirectoryFrame)
        → walker.frames ≡ frames
        → IsAbove limit walker
        → weight files limit walker ≤ bound
        → LightResult (frames_loop files again walker frames)
    frames_loop-Light walker [] e h small = tt
    frames_loop-Light walker (frame ∷ frames) e h small =
        let f = raw_weight (dir_weight files (limit - (frame.depth + 1))) in
        let splits = next_entry-Splits f frame.entries in
        let all = ap (total (frame_weight files limit)) e in
        let above = subst (All (λ (frame : DirectoryFrame). frame.depth < limit)) e h.3 in
        let popped = pop_frame walker frame frames in
        let hp : IsAbove limit popped = (h.0, h.1, h.2, above.1) in
        elim (Option-cases (next_entry frame.entries)) [
          | inl n ↦
              rw (n, frames_loop)
                (ended-Light frame.post_entry popped (frames_loop files again popped frames)
                  (hp, omega (arith, small, all))
                  (frames_loop-Light popped frames refl hp (omega (arith, small, all))))
          | inr ((raw, rest), s) ↦
              let taken : Walker = record walker {
                frames = record frame { entries = rest } ∷ frames;
              } in
              let ht : IsAbove limit taken = (h.0, h.1, h.2, above) in
              let split = rw s at splits in
              rw (s, frames_loop)
                (after_step-Light (entry_step files taken frame.path (frame.depth + 1) raw) (
                  entry_step-keeps light files taken frame.path (frame.depth + 1) raw
                    (raw-Light taken (frame.depth + 1) raw ht (omega (arith, small, all, split)))))
        ]

    pub after_schedule-Light :
        (scheduled : Option WalkError × Walker)
        → IsAbove limit scheduled.1
        → weight files limit scheduled.1 ≤ bound
        → (scheduled.0 ≢ none → weight files limit scheduled.1 < bound)
        → LightResult (after_schedule files again scheduled)
    after_schedule-Light (none, walker) h small lower =
        frames_loop-Light walker walker.frames refl h small
    after_schedule-Light (some error, walker) h small lower =
        after_error-Light walker walker.options.error_policy (h, lower (λ e. absurd (cc)))
