-- ===== src/Pull/Order.antt =====
-- The order of the ordered traversal (src/parallel/ordered_pull): depth first, with the entries of a
-- directory sorted by their paths, whichever worker is done first.
pub mod Run
use mathlib.Core.Path.{subst}
use mathlib.Core.List.{append_assoc, append-nil}
use weavatrix_scan.Common.{
  ℕ, zero, suc, ◌+◌, ◌-◌, ◌≤◌, ◌<◌, ◌≡◌, ◌≢◌, refl, sym, ap, ◌∙◌, Bool, true, false, ◌&&◌, ◌||◌,
  not, Option, none, some, List, [], ◌∷◌, ◌++◌, ◌⊎◌, inl, inr, ◌==◌, ==_iff, ==_refl, length, any,
  All, All-imp, All-append, Bool-cases, Option-cases, if_elim, if◌then◌else◌, arith,
}
use weavatrix_scan.Text.{Bytes}
use weavatrix_scan.Report.{saturating_add, u64_max}
use weavatrix_scan.Walk.{DirectoryIdentity, ErrorPolicy, continue, WalkEntry, Item, descends}
use weavatrix_scan.Pull.{
  Place, DirectoryTask, DirectoryBatch, PreparedItem, Prepared, sort_items, child_of, prepare_items,
  add_item,
}
use weavatrix_scan.Pull.Scheduler.{
  World, OrderedScheduler, Waited, got, failed, ended, blocked, panicked, Pulled, sent, tick,
  refill, wait_for, with_children, prepare_frame, aborts, after_wait, after_item, emitted,
  item_step, frame_step, drive_scheduler, fresh, root_place, ordered_parallel,
}
use weavatrix_scan.Pull.Refill.{
  IsCalm, IsIdle, refill_loop-Refilled, Refilled, is_present, tasks_at, keys_at, open_tasks,
  read_batch,
}
use weavatrix_scan.Pull.Receive.{
  IsGood, Leaves, Gets, wait_for-Gets, refill-IsGood, refill-present, ==-false, or_true, or_assoc,
  All-append_left, tasks_at-append, TaskFits, BatchFits,
}

-- An item, if it is visible.
abbrev pub shown : (Item → Bool) → Item → List Item
shown visible item = if visible item then item ∷ [] else []

-- The depth-first order below some entries: each entry, and behind it what is below its directory, where
-- the walk goes down. The number counts the directories.
pub data Walked (read : Place → List Item) (visible : Item → Bool)
    : List DirectoryIdentity → List Item → List Item → ℕ → Type 0 where
  done : (ancestors : List DirectoryIdentity) → Walked read visible ancestors [] [] 0
  leaf :
      (ancestors : List DirectoryIdentity) (item : Item) (items out : List Item) (n : ℕ)
      → child_of ancestors item ≡ none
      → Walked read visible ancestors items out n
      → Walked read visible ancestors (item ∷ items) (shown visible item ++ out) n
  down :
      (ancestors : List DirectoryIdentity) (item : Item) (place : Place)
      (items below out : List Item) (m n : ℕ)
      → child_of ancestors item ≡ some place
      → Walked read visible place.ancestors (sort_items (read place)) below m
      → Walked read visible ancestors items out n
      → Walked read visible ancestors
          (item ∷ items)
          (shown visible item ++ (below ++ out))
          (suc (m + n))

-- Numbers that rise from `low` on and stay below `high`.
abbrev pub RisesTo : ℕ → ℕ → List DirectoryTask → Type 0
RisesTo low high [] = low ≤ high
RisesTo low high (task ∷ tasks) = (low ≤ task.id) × RisesTo (suc task.id) high tasks

pub RisesTo-le : (low high : ℕ) (tasks : List DirectoryTask) → RisesTo low high tasks → low ≤ high
RisesTo-le low high [] h = h
RisesTo-le low high (task ∷ tasks) h = omega (arith, h.0, RisesTo-le (suc task.id) high tasks h.1)

pub RisesTo-mono :
    (low lower high higher : ℕ) (tasks : List DirectoryTask)
    → lower ≤ low
    → high ≤ higher
    → RisesTo low high tasks
    → RisesTo lower higher tasks
RisesTo-mono low lower high higher [] l g h = omega (arith, l, g, h)
RisesTo-mono low lower high higher (task ∷ tasks) l g h = (
  omega (arith, l, h.0),
  RisesTo-mono (suc task.id) (suc task.id) high higher tasks (omega arith) g h.1,
)

pub saturating_one : (n : ℕ) → n < u64_max → saturating_add n 1 ≡ suc n
saturating_one n h = omega (arith, h)

-- The children of a frame are numbered from the next number on.
pub prepare_items-RisesTo :
    (read : Place → List Item) (visible : Item → Bool) (ancestors : List DirectoryIdentity)
    (items out : List Item) (n i : ℕ)
    → Walked read visible ancestors items out n
    → i + n ≤ u64_max
    → RisesTo i (prepare_items ancestors items i).2 (prepare_items ancestors items i).1
      × ((prepare_items ancestors items i).2 ≤ i + n)
unfolding prepare_items
prepare_items-RisesTo read visible _ _ _ _ i (done ancestors) h = (omega arith, omega arith)
prepare_items-RisesTo read visible _ _ _ _ i (leaf ancestors item items out n e d) h =
    rw e (prepare_items-RisesTo read visible ancestors items out n i d h)
prepare_items-RisesTo read visible _ _ _ _ i (down ancestors item place items below out m n e b d)
      h =
    let next : saturating_add i 1 ≡ suc i = saturating_one i (omega (arith, h)) in
    let rest =
      prepare_items-RisesTo read visible ancestors items out n (suc i) d (omega (arith, h)) in
    rw (e, next) ((omega arith, rest.0), omega (arith, rest.1))

-- As many numbers are given as there are children, and each child is a directory of the walk.
pub prepare_items-length :
    (read : Place → List Item) (visible : Item → Bool) (ancestors : List DirectoryIdentity)
    (items out : List Item) (n i : ℕ)
    → Walked read visible ancestors items out n
    → length (prepare_items ancestors items i).1 ≤ n
unfolding prepare_items
prepare_items-length read visible _ _ _ _ i (done ancestors) = omega arith
prepare_items-length read visible _ _ _ _ i (leaf ancestors item items out n e d) =
    rw e (prepare_items-length read visible ancestors items out n i d)
prepare_items-length read visible _ _ _ _ i (down ancestors item place items below out m n e b d) =
    let rest = prepare_items-length read visible ancestors items out n (saturating_add i 1) d in
    rw e (omega (arith, rest))

pub prepare_items-behind :
    (read : Place → List Item) (visible : Item → Bool) (ancestors : List DirectoryIdentity)
    (items out : List Item) (n i : ℕ)
    → Walked read visible ancestors items out n
    → i + n ≤ u64_max
    → (prepare_items ancestors items i).2 ≡ i + length (prepare_items ancestors items i).1
unfolding prepare_items
prepare_items-behind read visible _ _ _ _ i (done ancestors) h = omega arith
prepare_items-behind read visible _ _ _ _ i (leaf ancestors item items out n e d) h =
    rw e (prepare_items-behind read visible ancestors items out n i d h)
prepare_items-behind read visible _ _ _ _ i (down ancestors item place items below out m n e b d)
      h =
    let next : saturating_add i 1 ≡ suc i = saturating_one i (omega (arith, h)) in
    let rest =
      prepare_items-behind read visible ancestors items out n (suc i) d (omega (arith, h)) in
    rw (e, next) (omega (arith, rest))

pub RisesTo-All :
    (low high : ℕ) (tasks : List DirectoryTask)
    → RisesTo low high tasks
    → All (λ (task : DirectoryTask). (low ≤ task.id) × (task.id < high)) tasks
RisesTo-All low high [] h = tt
RisesTo-All low high (task ∷ tasks) h = (
  (h.0, RisesTo-le (suc task.id) high tasks h.1),
  All-imp (λ (other : DirectoryTask) k. (omega (arith, k.0, h.0), k.1)) tasks
      (RisesTo-All (suc task.id) high tasks h.1),
)

-- What the numbers stand for, with those of some new tasks.
abbrev pub extend : (ℕ → Place) → List DirectoryTask → ℕ → Place
extend assigned [] id = assigned id
extend assigned (task ∷ tasks) id = if task.id == id then task.place else extend assigned tasks id

pub extend-below :
    (assigned : ℕ → Place) (low high id : ℕ) (tasks : List DirectoryTask)
    → RisesTo low high tasks
    → id < low
    → extend assigned tasks id ≡ assigned id
extend-below assigned low high id [] rises h = refl
extend-below assigned low high id (task ∷ tasks) rises h =
    rw (==-false task.id id (λ e. absurd (omega (arith, e, h, rises.0))))
      (extend-below assigned (suc task.id) high id tasks rises.1 (omega (arith, h, rises.0)))

-- The new tasks fit their numbers.
pub extend-TaskFits :
    (assigned : ℕ → Place) (low high : ℕ) (tasks : List DirectoryTask)
    → RisesTo low high tasks
    → All
        (λ (task : DirectoryTask). TaskFits (extend assigned tasks) high task × (low ≤ task.id))
        tasks
extend-TaskFits assigned low high [] rises = tt
extend-TaskFits assigned low high (task ∷ tasks) rises =
    let rest = extend-TaskFits assigned (suc task.id) high tasks rises.1 in
    let own : extend assigned (task ∷ tasks) task.id ≡ task.place = rw (==_refl task.id) refl in
    let below : task.id < high = RisesTo-le (suc task.id) high tasks rises.1 in
    (
      ((own, below), rises.0),
      All-imp
          (λ (other : DirectoryTask) fits. (
            (
              (rw (==-false task.id other.id (λ e. absurd (omega (arith, e, fits.1)))) fits.0.0),
              fits.0.1,
            ),
            omega (arith, fits.1, rises.0),
          ))
          tasks rest,
    )

pub quiet : (a : Bool) {b : Bool} → b ≡ true → (a && not b) ≡ false
quiet true e = rw e refl
quiet false e = refl

pub left_out : (a b : Bool) → a ≡ true → b ≡ false → (not a || b) ≡ true → ⊥
left_out a b ha hb h = let bad = rw (ha, hb) at h in absurd (cc)

pub own_numbers :
    (tasks more : List DirectoryTask)
    → All (λ (task : DirectoryTask). tasks_at task.id (tasks ++ more) ≡ true) tasks
own_numbers [] more = tt
own_numbers (task ∷ tasks) more = (
  rw (==_refl task.id) refl,
  All-imp (λ (other : DirectoryTask) h. rw h (or_true (task.id == other.id))) tasks
      (own_numbers tasks more),
)

pub queue_has :
    (id : ℕ) (running queued : List DirectoryTask) (ready : List (ℕ × DirectoryBatch))
    → tasks_at id queued ≡ true
    → (tasks_at id (running ++ queued) || keys_at id ready) ≡ true
queue_has id running queued ready h =
    rw (tasks_at-append id running queued, h, or_true (tasks_at id running)) refl

pub queue_keeps :
    (id : ℕ) (running children queued : List DirectoryTask) (ready : List (ℕ × DirectoryBatch))
    → (tasks_at id (running ++ queued) || keys_at id ready) ≡ true
    → (tasks_at id (running ++ (children ++ queued)) || keys_at id ready) ≡ true
queue_keeps id running children queued ready h = ground (
  arith,
  tasks_at-append id running queued,
  tasks_at-append id running (children ++ queued),
  tasks_at-append id children queued,
)

pub All-both {ℓ κ μ} :
    {A : Type ℓ} (P : A → Type κ) (Q : A → Type μ) (xs : List A)
    → All P xs
    → All Q xs
    → All (λ x. P x × Q x) xs
All-both P Q [] p q = tt
All-both P Q (x ∷ xs) p q = ((p.0, q.0), All-both P Q xs p.1 q.1)

-- The tasks of a frame: present, and given to their places.
abbrev pub Known : (ℕ → Place) → OrderedScheduler → DirectoryTask → Type 0
Known assigned s task = (is_present s task.id ≡ true) × (assigned task.id ≡ task.place)
