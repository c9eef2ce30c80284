-- ===== src/Pull/Refill.antt =====
-- Handing tasks to workers, and taking what they have done (src/parallel/ordered_pull/scheduler.rs).
use mathlib.Core.List.{append_assoc}
use weavatrix_scan.Common.{
  ℕ, zero, suc, ◌<◌, ◌≡◌, refl, ap, ◌∙◌, Bool, true, false, ◌&&◌, ◌||◌, not, Option, none, some,
  List, [], ◌∷◌, ◌++◌, ◌==◌, ltb, lt→ltb, length, length-append, any, All, if_elim, arith,
}
use weavatrix_scan.Walk.{Item}
use weavatrix_scan.Pull.{Place, DirectoryTask, DirectoryBatch}
use weavatrix_scan.Pull.Scheduler.{World, OrderedScheduler, take_at, tick, refill_loop}

-- The pool takes every task, no worker panics, nobody cancels, and the receiver listens; which worker is
-- done next is open.
pub record IsCalm (world : World) : Type 0 where
  pub admits : (n : ℕ) → world.admits n ≡ true
  pub cancels : (n : ℕ) → world.cancels n ≡ false
  pub panics : (n : ℕ) → world.panics n ≡ false
  pub listens : (n : ℕ) → world.listens n ≡ true

abbrev pub tasks_at : ℕ → List DirectoryTask → Bool
tasks_at id tasks = any (λ (task : DirectoryTask). task.id == id) tasks

abbrev pub keys_at : ℕ → List (ℕ × DirectoryBatch) → Bool
keys_at id ready = any (λ (e : ℕ × DirectoryBatch). e.0 == id) ready

-- The tasks that are not done.
abbrev pub open_tasks : OrderedScheduler → List DirectoryTask
open_tasks s = s.running ++ s.queued

abbrev pub is_present : OrderedScheduler → ℕ → Bool
is_present s id = tasks_at id (open_tasks s) || keys_at id s.ready

abbrev pub read_batch : (Place → List Item) → Place → DirectoryBatch
read_batch read place = record { entries = read place; ancestors = place.ancestors }

-- The state of a scheduler that is not cancelled, with workers for as many tasks as it may.
pub record IsIdle (s : OrderedScheduler) : Type 0 where
  pub calm : s.cancelled ≡ false
  pub no_error : s.schedule_error ≡ none
  pub counted : s.outstanding ≡ length s.running
  pub positive : 0 < s.limit

-- What filling the workers changes: tasks go from the queue to the workers.
pub record Refilled (s : OrderedScheduler) (tasks : List DirectoryTask) (r : OrderedScheduler)
    : Type 0 where
  pub idle : IsIdle r
  pub same : open_tasks r ≡ s.running ++ tasks
  pub same_ready : r.ready ≡ s.ready
  pub same_next : r.next_id ≡ s.next_id
  pub filled : r.running ≡ [] → r.queued ≡ []

overfull :
    (s : OrderedScheduler)
    → IsIdle s
    → s.running ≡ []
    → (not s.cancelled && ltb s.outstanding s.limit) ≡ false
    → ⊥
overfull s h e full =
    let none_running : s.outstanding ≡ 0 = h.counted ∙ ap length e in
    let room : ltb s.outstanding s.limit ≡ true =
      lt→ltb _ _ (omega (arith, none_running, h.positive)) in
    let bad = rw (h.calm, room) at full in absurd (cc)

module _ (world : World) (calm : IsCalm world) (read : Place → List Item) where
  pub refill_loop-Refilled :
      (s : OrderedScheduler) (tasks : List DirectoryTask)
      → IsIdle s
      → Refilled s tasks (refill_loop world read s tasks)
  refill_loop-Refilled s [] h = record {
    idle = record {
      calm = h.calm;
      no_error = h.no_error;
      counted = h.counted;
      positive = h.positive;
    };
    same = refl;
    same_ready = refl;
    same_next = refl;
    filled = λ e. refl;
  }
  refill_loop-Refilled s (task ∷ tasks) h =
      let more : OrderedScheduler =
        tick world read
          (record s { running = s.running ++ task ∷ []; outstanding = suc s.outstanding }) in
      let hm : IsIdle more = record {
        calm = rw (h.calm, calm.cancels s.clock) refl;
        no_error = h.no_error;
        counted = omega (arith, h.counted, length-append s.running (task ∷ []));
        positive = h.positive;
      } in
      let rest = refill_loop-Refilled more tasks hm in
      let kept : OrderedScheduler = record s { queued = task ∷ tasks } in
      let admitted : Refilled s (task ∷ tasks) (refill_loop world read more tasks) = record {
        idle = rest.idle;
        same = rest.same ∙ append_assoc s.running (task ∷ []) tasks;
        same_ready = rest.same_ready;
        same_next = rest.same_next;
        filled = rest.filled;
      } in
      if_elim (Refilled s (task ∷ tasks)) (not s.cancelled && ltb s.outstanding s.limit) _ kept
        (λ room.
          if_elim (Refilled s (task ∷ tasks)) (world.admits s.clock)
            (refill_loop world read more tasks) _ (λ yes. admitted)
            (λ no. absurd (cc (no, calm.admits s.clock))))
        (λ full. record {
          idle = record {
            calm = h.calm;
            no_error = h.no_error;
            counted = h.counted;
            positive = h.positive;
          };
          same = refl;
          same_ready = refl;
          same_next = refl;
          filled = λ e. absurd (overfull s h e full);
        })

-- Taking the task of a worker that is done.
abbrev pub Taken :
    (DirectoryTask → Type 0)
    → List DirectoryTask
    → Option (DirectoryTask × List DirectoryTask)
    → Type 0
Taken P tasks none = ⊥
Taken P tasks (some (task, others)) =
    ((id : ℕ) → tasks_at id tasks ≡ (task.id == id) || tasks_at id others)
    × (All P tasks → P task × All P others)
    × (length tasks ≡ suc (length others))

later-Taken :
    (P : DirectoryTask → Type 0) (task : DirectoryTask) (tasks : List DirectoryTask)
    (taken : Option (DirectoryTask × List DirectoryTask))
    → Taken P tasks taken
    → Taken P (task ∷ tasks) (elim taken [ none ↦ none | some t ↦ some (t.0, task ∷ t.1) ])
later-Taken P task tasks none h = h
later-Taken P task tasks (some (found, others)) (at, every, count) = (
  λ id. let step = at id in ground arith,
  λ all. let rest = every all.1 in (rest.0, (all.0, rest.1)),
  omega (arith, count),
)

pub take_at-Taken :
    (P : DirectoryTask → Type 0) (n : ℕ) (tasks : List DirectoryTask)
    → n < length tasks
    → Taken P tasks (take_at n tasks)
take_at-Taken P n [] h = absurd (omega (arith, h))
take_at-Taken P zero (task ∷ tasks) h = (λ id. refl, λ all. (all.0, all.1), refl)
take_at-Taken P (suc n) (task ∷ tasks) h =
    later-Taken P task tasks (take_at n tasks) (take_at-Taken P n tasks (omega (arith, h)))
