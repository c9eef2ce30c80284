-- ===== src/Pull/Scheduler.antt =====
-- The scheduler (src/parallel/ordered_pull/scheduler.rs) and its coordinator
-- (src/parallel/ordered_pull/execution.rs).
use weavatrix_scan.Common.{
  ℕ, zero, suc, ◌+◌, ◌-◌, ◌%◌, Bool, true, false, ◌&&◌, ◌||◌, not, Option, none, some, List, [],
  ◌∷◌, ◌++◌, inl, inr, ◌==◌, ltb, length, take, if◌then◌else◌,
}
use weavatrix_scan.Text.{Bytes, bytes}
use weavatrix_scan.Walk.{
  ErrorPolicy, abort, WalkError, WalkEntry, WalkOperation, Item, walk_error, descends,
  insert_identity,
}
use weavatrix_scan.Pull.{
  Place, DirectoryTask, DirectoryBatch, PreparedItem, sort_items, prepare_items, Prepared,
}

-- What happens outside of the coordinator, by the clock: which running worker is done next, whether the
-- pool takes a task, whether another thread has cancelled, how far a worker gets that is cancelled,
-- whether a worker panics, and whether the receiver still listens.
pub record World : Type 0 where
  pub choice : ℕ → ℕ
  pub admits : ℕ → Bool
  pub cancels : ℕ → Bool
  pub reaches : ℕ → ℕ
  pub panics : ℕ → Bool
  pub listens : ℕ → Bool

pub record OrderedScheduler : Type 0 where
  pub root : Bytes
  pub limit : ℕ
  pub next_id : ℕ
  pub queued : List DirectoryTask
  pub running : List DirectoryTask
  pub outstanding : ℕ
  pub ready : List (ℕ × DirectoryBatch)
  pub cancelled : Bool
  pub schedule_error : Option WalkError
  pub clock : ℕ

-- `ready.remove(&id)`.
abbrev pub lookup : ℕ → List (ℕ × DirectoryBatch) → Option DirectoryBatch
lookup id [] = none
lookup id ((key, batch) ∷ ready) = if key == id then some batch else lookup id ready

abbrev pub remove : ℕ → List (ℕ × DirectoryBatch) → List (ℕ × DirectoryBatch)
remove id [] = []
remove id ((key, batch) ∷ ready) =
    let rest = remove id ready in if key == id then rest else (key, batch) ∷ rest

-- The task at a position, and the others.
abbrev pub take_at : ℕ → List DirectoryTask → Option (DirectoryTask × List DirectoryTask)
take_at n [] = none
take_at zero (task ∷ tasks) = some (task, tasks)
take_at (suc n) (task ∷ tasks) = elim (take_at n tasks) [
  | none ↦ none
  | some taken ↦ some (taken.0, task ∷ taken.1)
]

-- How a wait ends. `blocked` stands for a receive that nobody will answer.
pub data Waited : Type 0 where
  got : DirectoryBatch → OrderedScheduler → Waited
  failed : WalkError → Waited
  ended blocked panicked : Waited

-- What the coordinator has sent when it returns, or how it does not.
pub data Pulled : Type 0 where
  sent : List Item → Pulled
  stuck died : List Item → Pulled

module _ (world : World) (read : Place → List Item) where
  -- Time passes.
  abbrev pub tick : OrderedScheduler → OrderedScheduler
  tick s = record s { clock = suc s.clock; cancelled = s.cancelled || world.cancels s.clock }

  -- `OrderedScheduler::refill`.
  abbrev pub refill_loop : OrderedScheduler → List DirectoryTask → OrderedScheduler
  refill_loop s [] = record s { queued = [] }
  refill_loop s (task ∷ tasks) =
      let started =
        refill_loop
          (tick (record s { running = s.running ++ task ∷ []; outstanding = suc s.outstanding }))
          tasks in
      if not s.cancelled && ltb s.outstanding s.limit
      then (if world.admits s.clock then started else record s {
        cancelled = true;
        queued = [];
        schedule_error =
            some (walk_error s.root 0 WalkOperation.schedule_worker (bytes "schedule"));
      })
      else record s { queued = task ∷ tasks }

  abbrev pub refill : OrderedScheduler → OrderedScheduler
  refill s = refill_loop s s.queued

  -- The batch that a worker sends: all entries, or the first ones when the walk is cancelled.
  abbrev pub batch_of : OrderedScheduler → Place → DirectoryBatch
  batch_of s place = record {
    entries = if s.cancelled then take (world.reaches s.clock) (read place) else read place;
    ancestors = place.ancestors;
  }

  -- Behind a result of another task, and in front of a wait.
  abbrev pub error_or : OrderedScheduler → Waited → Waited
  error_or s other = elim s.schedule_error [ some error ↦ failed error | none ↦ other ]

  abbrev pub receive :
      (OrderedScheduler → Waited)
      → OrderedScheduler
      → ℕ
      → Option (DirectoryTask × List DirectoryTask)
      → Waited
  receive again s id none = blocked
  receive again s id (some (task, running)) =
      let later = tick (record s { running = running; outstanding = s.outstanding - 1 }) in
      let batch = batch_of s task.place in
      let kept = refill (record later { ready = (task.id, batch) ∷ remove task.id later.ready }) in
      if world.panics s.clock
      then panicked
      else if task.id == id
      then error_or (refill later) (got batch (refill later))
      else if kept.cancelled
      then error_or kept ended
      else again kept

  -- The worker that is done next.
  abbrev pub chosen : OrderedScheduler → Option (DirectoryTask × List DirectoryTask)
  chosen s = take_at (world.choice s.clock % length s.running) s.running

  -- The loop over results; it runs at most once for each task.
  unfoldable pub wait_loop : ℕ → OrderedScheduler → ℕ → Waited
  wait_loop zero s id = blocked
  wait_loop (suc fuel) s id = receive (λ kept. wait_loop fuel kept id) s id (chosen s)

  -- `OrderedScheduler::wait_for`.
  unfoldable pub wait_for : OrderedScheduler → ℕ → Waited
  wait_for s id = elim (lookup id s.ready) [
    | some batch ↦ got batch (record s { ready = remove id s.ready })
    | none ↦ error_or s (wait_loop (suc (length s.running + length s.queued)) s id)
  ]

  -- `OrderedScheduler::prepare_frame`: the frame, and the scheduler with the children in front of its queue.
  abbrev pub with_children : OrderedScheduler → Prepared → OrderedScheduler
  with_children s (items, children, behind) =
      refill (record s { next_id = behind; queued = children ++ s.queued })

  abbrev pub prepare_frame :
      OrderedScheduler → DirectoryBatch → List PreparedItem × OrderedScheduler
  prepare_frame s batch =
      let prepared = prepare_items batch.ancestors (sort_items batch.entries) s.next_id in
      (prepared.0, with_children s prepared)

  module _ (visible : Item → Bool) (policy : ErrorPolicy) where
    abbrev pub aborts : Item → ErrorPolicy → Bool
    aborts (inl error) abort = true
    aborts item other_policy = false

    -- The coordinator's state: the scheduler, the frames with the last one first, and what is sent.
    abbrev Loop : Type 0
    Loop = OrderedScheduler → List (List PreparedItem) → List Item → Option Pulled

    abbrev pub after_wait : Loop → List (List PreparedItem) → List Item → Waited → Option Pulled
    after_wait again frames out (got batch s) =
        let prepared = prepare_frame s batch in again prepared.1 (prepared.0 ∷ frames) out
    after_wait again frames out (failed error) = some (sent (out ++ inl error ∷ []))
    after_wait again frames out ended = some (sent out)
    after_wait again frames out blocked = some (stuck out)
    after_wait again frames out panicked = some (died out)

    -- Down into the child of the item that was sent, if it has one.
    abbrev pub after_item :
        Loop → OrderedScheduler → List (List PreparedItem) → List Item → Option ℕ → Option Pulled
    after_item again s frames out none = again s frames out
    after_item again s frames out (some id) = after_wait again frames out (wait_for s id)

    abbrev pub emitted : List Item → Item → List Item
    emitted out item = if visible item then out ++ item ∷ [] else out

    abbrev pub item_step :
        Loop
        → OrderedScheduler
        → PreparedItem
        → List (List PreparedItem)
        → List Item
        → Option Pulled
    item_step again s prepared frames out =
        if visible prepared.item && not (world.listens s.clock)
        then some (sent out)
        else if aborts prepared.item policy
        then some (sent (emitted out prepared.item))
        else after_item again (tick s) frames (emitted out prepared.item) prepared.child

    abbrev pub frame_step : Loop → Loop
    frame_step again s [] out = some (sent out)
    frame_step again s ([] ∷ frames) out = again s frames out
    frame_step again s ((prepared ∷ items) ∷ frames) out =
        item_step again s prepared (items ∷ frames) out

    -- `drive_scheduler`; `none` stands for fuel that ran out.
    unfoldable pub drive_scheduler : ℕ → Loop
    drive_scheduler zero s frames out = none
    drive_scheduler (suc fuel) s frames out =
        if s.cancelled then some (sent out) else frame_step (drive_scheduler fuel) s frames out

    abbrev pub fresh : Bytes → ℕ → Place → OrderedScheduler
    fresh root limit place = record {
      root = root;
      limit = limit;
      next_id = 1;
      queued = record { id = 0; place = place } ∷ [];
      running = [];
      outstanding = 0;
      ready = [];
      cancelled = false;
      schedule_error = none;
      clock = 0;
    }

    abbrev pub root_place : Bytes → WalkEntry → Place
    root_place root root_entry = record {
      path = root;
      depth = 0;
      identity = root_entry.directory_identity;
      ancestors = insert_identity root_entry.directory_identity [];
    }

    -- `ordered_parallel` from the root's entry on, which is sent if it is visible.
    unfoldable pub ordered_parallel : ℕ → Bytes → ℕ → WalkEntry → Option Pulled
    ordered_parallel fuel root limit root_entry =
        let out = emitted [] (inr root_entry) in
        let s = tick (fresh root limit (root_place root root_entry)) in
        if visible (inr root_entry) && not (world.listens 0)
        then some (sent [])
        else if not (descends root_entry) || s.cancelled
        then some (sent out)
        else after_wait (drive_scheduler fuel) [] out (wait_for (refill s) 0)
