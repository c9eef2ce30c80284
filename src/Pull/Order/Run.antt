-- ===== src/Pull/Order/Run.antt =====
-- The loop of the coordinator, from a frame to its end (src/parallel/ordered_pull/execution.rs).
use mathlib.Core.Path.{subst}
use mathlib.Core.List.{append_assoc, append-nil}
use weavatrix_scan.Common.{
  ℕ, suc, ◌+◌, ◌≤◌, ◌<◌, ◌≡◌, refl, sym, ap, ◌∙◌, Bool, true, false, ◌&&◌, ◌||◌, not, Option, none,
  some, List, [], ◌∷◌, ◌++◌, inl, inr, length, All, All-imp, All-append, Bool-cases, if_elim, arith,
}
use weavatrix_scan.Text.{Bytes}
use weavatrix_scan.Report.{saturating_add, u64_max}
use weavatrix_scan.Walk.{DirectoryIdentity, continue, WalkEntry, Item, descends}
use weavatrix_scan.Pull.{
  Place, DirectoryTask, DirectoryBatch, PreparedItem, sort_items, prepare_items,
}
use weavatrix_scan.Pull.Scheduler.{
  World, OrderedScheduler, Waited, got, failed, ended, blocked, panicked, Pulled, sent, tick,
  refill, wait_for, with_children, prepare_frame, aborts, after_wait, after_item, emitted,
  drive_scheduler, fresh, root_place, ordered_parallel,
}
use weavatrix_scan.Pull.Refill.{
  IsCalm, IsIdle, refill_loop-Refilled, is_present, open_tasks, read_batch,
}
use weavatrix_scan.Pull.Receive.{
  IsGood, Leaves, Gets, wait_for-Gets, refill-IsGood, refill-present, All-append_left, TaskFits,
  BatchFits,
}
use weavatrix_scan.Pull.Order.{
  shown, Walked, done, leaf, down, RisesTo, RisesTo-le, RisesTo-mono, saturating_one,
  prepare_items-RisesTo, prepare_items-length, prepare_items-behind, RisesTo-All, extend,
  extend-below, extend-TaskFits, quiet, left_out, own_numbers, queue_has, queue_keeps, All-both,
  Known,
}

module _ (world : World) (calm : IsCalm world) (read : Place → List Item)
    (visible : Item → Bool) where
  abbrev drive : ℕ → OrderedScheduler → List (List PreparedItem) → List Item → Option Pulled
  drive fuel s frames out = drive_scheduler world read visible continue fuel s frames out

  emitted-shown :
      (out : List Item) (item : Item)
      → emitted world read visible continue out item ≡ out ++ shown visible item
  emitted-shown out item = elim (Bool-cases (visible item)) [
    | inl t ↦ rw t refl
    | inr f ↦ rw f (sym (append-nil out))
  ]

  aborts-continue : (item : Item) → aborts world read visible continue item continue ≡ false
  aborts-continue (inl error) = refl
  aborts-continue (inr entry) = refl

  -- One item: it is sent, and the coordinator goes down.
  drive-item :
      (fuel : ℕ) (s : OrderedScheduler) (prepared : PreparedItem) (items : List PreparedItem)
      (frames : List (List PreparedItem)) (out : List Item)
      → s.cancelled ≡ false
      → drive (suc fuel) s ((prepared ∷ items) ∷ frames) out
        ≡ after_item world read visible continue
            (drive_scheduler world read visible continue fuel)
            (tick world read s)
            (items ∷ frames)
            (out ++ shown visible prepared.item)
            prepared.child
  unfolding drive_scheduler
  drive-item fuel s prepared items frames out e =
      rw
        (
          e,
          quiet (visible prepared.item) (calm.listens s.clock),
          aborts-continue prepared.item,
          emitted-shown out prepared.item,
        )
        refl

  drive-frame :
      (fuel : ℕ) (s : OrderedScheduler) (frames : List (List PreparedItem)) (out : List Item)
      → s.cancelled ≡ false
      → drive (suc fuel) s ([] ∷ frames) out ≡ drive fuel s frames out
  unfolding drive_scheduler
  drive-frame fuel s frames out e = rw e refl

  -- What the loop makes of a frame whose items come to `shown_items` below the numbers from `low` on.
  record Ran (assigned : ℕ → Place) (s : OrderedScheduler) (frame : List PreparedItem)
      (children : List DirectoryTask) (below : List Item) (low n : ℕ) : Type 0 where
    steps : ℕ
    after : OrderedScheduler
    named : ℕ → Place
    runs :
        (fuel : ℕ) (frames : List (List PreparedItem)) (out : List Item)
        → drive (steps + fuel) s (frame ∷ frames) out ≡ drive fuel after frames (out ++ below)
    good : IsGood read named after
    kept : (id : ℕ) → id < low → is_present s id ≡ true → is_present after id ≡ true
    agrees : (id : ℕ) → id < s.next_id → named id ≡ assigned id
    grown : after.next_id + length children ≤ s.next_id + n
    grows : s.next_id ≤ after.next_id

  tick-IsGood :
      (assigned : ℕ → Place) (s : OrderedScheduler)
      → IsGood read assigned s
      → IsGood read assigned (tick world read s)
  tick-IsGood assigned s good = record {
    idle = record {
      calm = rw (good.idle.calm, calm.cancels s.clock) refl;
      no_error = good.idle.no_error;
      counted = good.idle.counted;
      positive = good.idle.positive;
    };
    tasks = good.tasks;
    batches = good.batches;
    filled = good.filled;
  }

  -- Behind the preparation of a frame.
  record Entered (assigned : ℕ → Place) (s : OrderedScheduler) (children : List DirectoryTask)
      (behind : ℕ) (after : OrderedScheduler) : Type 0 where
    good : IsGood read (extend assigned children) after
    next_same : after.next_id ≡ behind
    known : All (Known (extend assigned children) after) children
    kept : (id : ℕ) → is_present s id ≡ true → is_present after id ≡ true

  with_children-Entered :
      (assigned : ℕ → Place) (s : OrderedScheduler) (items : List PreparedItem)
      (children : List DirectoryTask) (behind : ℕ)
      → IsGood read assigned s
      → RisesTo s.next_id behind children
      → Entered assigned s children behind (with_children world read s (items, children, behind))
  with_children-Entered assigned s items children behind good rises =
      let named = extend assigned children in
      let queue : OrderedScheduler = record s { next_id = behind; queued = children ++ s.queued } in
      let idle : IsIdle queue = record {
        calm = good.idle.calm;
        no_error = good.idle.no_error;
        counted = good.idle.counted;
        positive = good.idle.positive;
      } in
      let le = RisesTo-le s.next_id behind children rises in
      let old : (id : ℕ) → id < s.next_id → named id ≡ assigned id =
        λ id h. extend-below assigned s.next_id behind id children rises h in
      let split = All-append_left (TaskFits assigned s.next_id) s.running s.queued good.tasks in
      let keep : (task : DirectoryTask)
          → TaskFits assigned s.next_id task
          → TaskFits named behind task =
        λ task h. (old task.id h.1 ∙ h.0, omega (arith, h.1, le)) in
      let fits = extend-TaskFits assigned s.next_id behind children rises in
      let new_tasks : All (TaskFits named behind) children =
        All-imp (λ (task : DirectoryTask) h. h.0) children fits in
      let tasks : All (TaskFits named behind) (open_tasks queue) =
        All-append (TaskFits named behind) s.running (children ++ s.queued)
          (All-imp keep s.running split.0)
          (All-append (TaskFits named behind) children s.queued new_tasks
            (All-imp keep s.queued split.1)) in
      let batches : All (BatchFits read named behind) s.ready =
        All-imp
          (λ (e : ℕ × DirectoryBatch) h.
            (h.0 ∙ ap (read_batch read) (sym (old e.0 h.1)), omega (arith, h.1, le)))
          s.ready good.batches in
      let filled = refill_loop-Refilled world calm read queue queue.queued idle in
      record {
        good = refill-IsGood world calm read named queue idle tasks batches;
        next_same = filled.same_next;
        known =
            All-imp
              (λ (task : DirectoryTask) h. (
                refill-present world calm read named queue task.id idle
                    ∙ queue_has task.id s.running (children ++ s.queued) s.ready h.0,
                h.1.0.0,
              ))
              children (All-both _ _ children (own_numbers children s.queued) fits);
        kept = λ id h.
            refill-present world calm read named queue id idle
            ∙ queue_keeps id s.running children s.queued s.ready h;
      }

  -- A wait that gives a batch.
  Gets-got :
      (assigned : ℕ → Place) (id : ℕ) (s : OrderedScheduler) (w : Waited)
      → Gets world calm read assigned id s w
      → (after : OrderedScheduler) × (w ≡ got (read_batch read (assigned id)) after)
        × Leaves read assigned id s after
  Gets-got assigned id s (got batch after) (e, leaves) = (after, ap (λ b. got b after) e, leaves)
  Gets-got assigned id s (failed error) h = absurd h
  Gets-got assigned id s ended h = absurd h
  Gets-got assigned id s blocked h = absurd h
  Gets-got assigned id s panicked h = absurd h

  -- An item with a directory: the wait, the frame below it, and the rest of its own frame.
  joined :
      (item : Item) (place : Place) (frame inner_frame : List PreparedItem)
      (children inner_children : List DirectoryTask) (below out : List Item) (m n i next : ℕ)
      (s waited entered : OrderedScheduler) (assigned named : ℕ → Place)
      → wait_for world read (tick world read s) i ≡ got (read_batch read place) waited
      → prepare_frame world read waited (read_batch read place) ≡ (inner_frame, entered)
      → (first : Ran named entered inner_frame inner_children below waited.next_id m)
      → (second : Ran first.named first.after frame children out next n) → s.cancelled ≡ false
      → ((id : ℕ) → id < i → is_present s id ≡ true → is_present second.after id ≡ true)
      → ((id : ℕ) → id < s.next_id → second.named id ≡ assigned id)
      → second.after.next_id + suc (length children) ≤ s.next_id + suc (m + n)
      → s.next_id ≤ second.after.next_id
      → Ran assigned s
          (record { item = item; child = some i } ∷ frame)
          (record { id = i; place = place } ∷ children)
          (shown visible item ++ (below ++ out))
          i
          (suc (m + n))
  joined item place frame inner_frame children inner_children below out m n i next s waited entered
        assigned named eq prepared first second calm_now kept agrees grown grows =
      record {
        steps = suc (first.steps + second.steps);
        after = second.after;
        named = second.named;
        runs = λ fuel frames before.
            let p : PreparedItem = record { item = item; child = some i } in
            ap (λ k. drive k s ((p ∷ frame) ∷ frames) before) (omega arith)
            ∙ drive-item (first.steps + (second.steps + fuel)) s p frame frames before calm_now
            ∙ ap
                (λ w.
                  after_wait world read visible continue
                    (drive_scheduler world read visible continue
                      (first.steps + (second.steps + fuel)))
                    (frame ∷ frames) (before ++ shown visible item) w)
                eq
            ∙ ap
                (λ (r : List PreparedItem × OrderedScheduler).
                  drive (first.steps + (second.steps + fuel)) r.1 (r.0 ∷ frame ∷ frames)
                    (before ++ shown visible item))
                prepared
            ∙ first.runs (second.steps + fuel) (frame ∷ frames) (before ++ shown visible item)
            ∙ second.runs fuel frames ((before ++ shown visible item) ++ below)
            ∙ ap (λ o. drive fuel second.after frames o)
                (append_assoc (before ++ shown visible item) below out
                  ∙ append_assoc before (shown visible item) (below ++ out));
        good = second.good;
        kept = kept;
        agrees = agrees;
        grown = grown;
        grows = grows;
      }

  ran :
      (ancestors : List DirectoryIdentity) (items out : List Item) (n i : ℕ) (s : OrderedScheduler)
      (assigned : ℕ → Place)
      → Walked read visible ancestors items out n
      → IsGood read assigned s
      → s.next_id + n ≤ u64_max + length (prepare_items ancestors items i).1
      → RisesTo i s.next_id (prepare_items ancestors items i).1
      → All (Known assigned s) (prepare_items ancestors items i).1
      → Ran assigned s
          (prepare_items ancestors items i).0
          (prepare_items ancestors items i).1
          out
          i
          n
  unfolding prepare_items
  ran _ _ _ _ i s assigned (done ancestors) good bound rises known = record {
    steps = 1;
    after = s;
    named = assigned;
    runs = λ fuel frames out.
        ap (λ k. drive k s ([] ∷ frames) out) (omega arith)
        ∙ drive-frame fuel s frames out good.idle.calm
        ∙ ap (λ o. drive fuel s frames o) (sym (append-nil out));
    good = good;
    kept = λ id h here. here;
    agrees = λ id h. refl;
    grown = omega arith;
    grows = omega arith;
  }
  ran _ _ _ _ i s assigned (leaf ancestors item items out n e d) good bound rises known =
      let ticked = tick world read s in
      let rest =
        ran ancestors items out n i ticked assigned d (tick-IsGood assigned s good) (rw e at bound)
          (rw e at rises) (rw e at known) in
      rw e (record {
        steps = suc rest.steps;
        after = rest.after;
        named = rest.named;
        runs = λ fuel frames sent_before.
            ap
              (λ k.
                drive k s
                  ((record { item = item; child = none } ∷ (prepare_items ancestors items i).0)
                    ∷ frames)
                  sent_before)
              (omega arith)
            ∙ drive-item (rest.steps + fuel) s (record { item = item; child = none })
                (prepare_items ancestors items i).0 frames sent_before good.idle.calm
            ∙ rest.runs fuel frames (sent_before ++ shown visible item)
            ∙ ap (λ o. drive fuel rest.after frames o)
                (append_assoc sent_before (shown visible item) out);
        good = rest.good;
        kept = rest.kept;
        agrees = rest.agrees;
        grown = rest.grown;
        grows = rest.grows;
      })
  ran _ _ _ _ i s assigned (down ancestors item place items below out m n e b d) good bound rises
        known =
      let ticked = tick world read s in
      let i' = saturating_add i 1 in
      let frame = (prepare_items ancestors items i').0 in
      let children = (prepare_items ancestors items i').1 in
      let task : DirectoryTask = record { id = i; place = place } in
      let bound' : s.next_id + suc (m + n) ≤ u64_max + suc (length children) = rw e at bound in
      let rises' : (i ≤ i) × RisesTo (suc i) s.next_id children = rw e at rises in
      let known' : Known assigned s task × All (Known assigned s) children = rw e at known in
      let few : length children ≤ n =
        prepare_items-length read visible ancestors items out n i' d in
      let above : suc i ≤ s.next_id = RisesTo-le (suc i) s.next_id children rises'.1 in
      let number : i' ≡ suc i = saturating_one i (omega (arith, bound', few, above)) in
      let (waited, eq, leaves) = Gets-got assigned i ticked (wait_for world read ticked i) (
        wait_for-Gets world calm read assigned ticked i (tick-IsGood assigned s good) known'.0.0) in
      let batch : read_batch read (assigned i) ≡ read_batch read place =
        ap (read_batch read) known'.0.1 in
      let inner = sort_items (read place) in
      let prepared = prepare_items place.ancestors inner waited.next_id in
      let small : waited.next_id + m ≤ u64_max = omega (arith, bound', few, leaves.next_same) in
      let inner_rises =
        prepare_items-RisesTo read visible place.ancestors inner below m waited.next_id b small in
      let inner_behind =
        prepare_items-behind read visible place.ancestors inner below m waited.next_id b small in
      let entered =
        with_children-Entered assigned waited prepared.0 prepared.1 prepared.2 leaves.good
          inner_rises.0 in
      let s3 = with_children world read waited prepared in
      let first =
        ran place.ancestors inner below m waited.next_id s3 (extend assigned prepared.1) b
          entered.good (omega (arith, entered.next_same, inner_behind, small))
          (subst (λ h. RisesTo waited.next_id h prepared.1) (sym entered.next_same) inner_rises.0)
          entered.known in
      let high : s.next_id ≤ first.after.next_id =
        omega (arith, first.grows, entered.next_same, inner_behind, leaves.next_same) in
      let second =
        ran ancestors items out n i' first.after first.named d first.good
          (omega (arith, first.grown, entered.next_same, inner_behind, bound', leaves.next_same))
          (RisesTo-mono (suc i) i' s.next_id first.after.next_id children (omega (arith, number))
            high rises'.1)
          (All-imp
            (λ (other : DirectoryTask) h. (
              first.kept other.id (omega (arith, h.1.1, leaves.next_same)) (
                  entered.kept other.id
                    (leaves.present other.id (λ same. absurd (omega (arith, same, h.1.0))) h.0.0)),
              first.agrees other.id
                    (omega (arith, h.1.1, entered.next_same, inner_behind, leaves.next_same))
                  ∙ extend-below assigned waited.next_id prepared.2 other.id prepared.1
                      inner_rises.0 (omega (arith, h.1.1, leaves.next_same))
                  ∙ h.0.1,
            ))
            children
            (All-both _ _ children known'.1 (RisesTo-All (suc i) s.next_id children rises'.1))) in
      rw e (
        joined item place frame prepared.0 children prepared.1 below out m n i i' s waited s3
          assigned (extend assigned prepared.1) (eq ∙ ap (λ b. got b waited) batch) refl first
          second good.idle.calm
          (λ id h here. second.kept id (omega (arith, h, number)) (
            first.kept id (omega (arith, h, above, leaves.next_same))
              (entered.kept id (leaves.present id (λ same. absurd (omega (arith, same, h))) here))))
          (λ id h.
            second.agrees id (omega (arith, h, high))
            ∙ first.agrees id (omega (arith, h, entered.next_same, inner_behind, leaves.next_same))
            ∙ extend-below assigned waited.next_id prepared.2 id prepared.1 inner_rises.0
                (omega (arith, h, leaves.next_same)))
          (omega
            (arith, second.grown, first.grown, entered.next_same, inner_behind, leaves.next_same))
          (omega (arith, second.grows, high)))

  drive-end :
      (fuel : ℕ) (s : OrderedScheduler) (out : List Item)
      → s.cancelled ≡ false
      → drive (suc fuel) s [] out ≡ some (sent out)
  unfolding drive_scheduler
  drive-end fuel s out e = rw e refl

  -- The wait for the root's directory and the frames below it.
  root-Ran :
      (place : Place) (s : OrderedScheduler) (out : List Item) (n : ℕ)
      → IsGood read (λ id. place) s
      → s.next_id ≡ 1
      → is_present s 0 ≡ true
      → Walked read visible place.ancestors (sort_items (read place)) out n
      → n < u64_max
      → (steps : ℕ) × ((fuel : ℕ) (before : List Item)
          → after_wait world read visible continue
              (drive_scheduler world read visible continue (steps + fuel))
              []
              before
              (wait_for world read s 0)
            ≡ some (sent (before ++ out)))
  root-Ran place s out n good one here d small =
      let (waited, eq, leaves) =
        Gets-got (λ id. place) 0 s (wait_for world read s 0)
          (wait_for-Gets world calm read (λ id. place) s 0 good here) in
      let inner = sort_items (read place) in
      let prepared = prepare_items place.ancestors inner waited.next_id in
      let bound : waited.next_id + n ≤ u64_max = omega (arith, small, leaves.next_same, one) in
      let rises =
        prepare_items-RisesTo read visible place.ancestors inner out n waited.next_id d bound in
      let behind =
        prepare_items-behind read visible place.ancestors inner out n waited.next_id d bound in
      let entered =
        with_children-Entered (λ id. place) waited prepared.0 prepared.1 prepared.2 leaves.good
          rises.0 in
      let first =
        ran place.ancestors inner out n waited.next_id (with_children world read waited prepared)
          (extend (λ id. place) prepared.1) d entered.good
          (omega (arith, entered.next_same, behind, bound))
          (subst (λ h. RisesTo waited.next_id h prepared.1) (sym entered.next_same) rises.0)
          entered.known in
      (
        suc first.steps,
        λ fuel before.
            ap
              (λ w.
                after_wait world read visible continue
                  (drive_scheduler world read visible continue (suc first.steps + fuel)) [] before
                  w)
              eq
            ∙ ap (λ k. drive k (with_children world read waited prepared) (prepared.0 ∷ []) before)
                (omega arith)
            ∙ first.runs (suc fuel) [] before
            ∙ drive-end fuel first.after (before ++ out) first.good.idle.calm,
      )

  -- The ordered traversal sends the entries in depth-first order, with the entries of a directory sorted by
  -- their paths and each directory in front of what is below it, in whatever order the workers are done:
  -- it does not block, and what it has sent when it returns is the root's entry and the depth-first list.
  -- The pool takes all tasks, nobody cancels, no worker panics, the receiver listens, errors do not abort,
  -- the root is a directory that is entered, and there are fewer than 2^64 - 1 directories.
  pub ordered_parallel-Walked :
      (root : Bytes) (limit : ℕ) (root_entry : WalkEntry) (out : List Item) (n : ℕ)
      → 0 < limit
      → descends root_entry ≡ true
      → Walked read visible
          (root_place world read visible continue root root_entry).ancestors
          (sort_items (read (root_place world read visible continue root root_entry)))
          out
          n
      → n < u64_max
      → (steps : ℕ) × ((fuel : ℕ)
          → ordered_parallel world read visible continue (steps + fuel) root limit root_entry
            ≡ some (sent (shown visible (inr root_entry) ++ out)))
  unfolding ordered_parallel
  ordered_parallel-Walked root limit root_entry out n positive enters d small =
      let place = root_place world read visible continue root root_entry in
      let ticked = tick world read (fresh world read visible continue root limit place) in
      let quiet_start : ticked.cancelled ≡ false = calm.cancels 0 in
      let idle : IsIdle ticked = record {
        calm = quiet_start;
        no_error = refl;
        counted = refl;
        positive = positive;
      } in
      let good =
        refill-IsGood world calm read (λ id. place) ticked idle ((refl, omega arith), tt) tt in
      let here : is_present (refill world read ticked) 0 ≡ true =
        refill-present world calm read (λ id. place) ticked 0 idle in
      let one = (refill_loop-Refilled world calm read ticked ticked.queued idle).same_next in
      let (steps, runs) = root-Ran place (refill world read ticked) out n good one here d small in
      (
        steps,
        λ fuel.
            if_elim (λ r. r ≡ some (sent (shown visible (inr root_entry) ++ out)))
              (visible (inr root_entry) && not (world.listens 0)) (some (sent [])) _
              (λ deaf. absurd (cc (deaf, quiet (visible (inr root_entry)) (calm.listens 0))))
              (λ e.
                if_elim (λ r. r ≡ some (sent (shown visible (inr root_entry) ++ out)))
                  (not (descends root_entry) || ticked.cancelled) _ _
                  (λ stays.
                    absurd
                      (left_out (descends root_entry) ticked.cancelled enters quiet_start stays))
                  (λ e. runs fuel (shown visible (inr root_entry)))),
      )
