-- ===== src/Pull/Receive.antt =====
-- Waiting for one directory, whichever worker is done first (src/parallel/ordered_pull/scheduler.rs).
use native.Mathlib.Nat.{mod-lt}
use weavatrix_scan.Common.{
  ℕ, zero, suc, ◌+◌, ◌-◌, ◌%◌, ◌<◌, ◌≡◌, ◌≢◌, refl, sym, ap, ◌∙◌, Bool, true, false, ◌||◌, Option,
  none, some, List, [], ◌∷◌, ◌++◌, inl, inr, ◌==◌, ==_iff, length, length-append, any-append, All,
  All-append, Bool-cases, Option-cases, if_elim, arith,
}
use weavatrix_scan.Walk.{Item}
use weavatrix_scan.Pull.{Place, DirectoryTask, DirectoryBatch}
use weavatrix_scan.Pull.Scheduler.{
  World, OrderedScheduler, lookup, remove, Waited, got, failed, ended, blocked, panicked, tick,
  refill, batch_of, error_or, receive, chosen, wait_loop, wait_for,
}
use weavatrix_scan.Pull.Refill.{
  IsCalm, tasks_at, keys_at, open_tasks, is_present, read_batch, IsIdle, refill_loop-Refilled,
  Taken, take_at-Taken,
}

-- Each number stands for the directory that it was given to.
abbrev pub TaskFits : (ℕ → Place) → ℕ → DirectoryTask → Type 0
TaskFits assigned next_id task = (assigned task.id ≡ task.place) × (task.id < next_id)

abbrev pub BatchFits : (Place → List Item) → (ℕ → Place) → ℕ → ℕ × DirectoryBatch → Type 0
BatchFits read assigned next_id (id, batch) =
    (batch ≡ read_batch read (assigned id)) × (id < next_id)

pub record IsGood (read : Place → List Item) (assigned : ℕ → Place) (s : OrderedScheduler)
    : Type 0 where
  pub idle : IsIdle s
  pub tasks : All (TaskFits assigned s.next_id) (open_tasks s)
  pub batches : All (BatchFits read assigned s.next_id) s.ready
  pub filled : s.running ≡ [] → s.queued ≡ []

-- What a wait for `id` leaves: a good state in which all other numbers are still present.
pub record Leaves (read : Place → List Item) (assigned : ℕ → Place) (id : ℕ)
    (s after : OrderedScheduler) : Type 0 where
  pub good : IsGood read assigned after
  pub next_same : after.next_id ≡ s.next_id
  pub present : (other : ℕ) → other ≢ id → is_present s other ≡ true → is_present after other ≡ true

pub tasks_at-append :
    (id : ℕ) (xs ys : List DirectoryTask)
    → tasks_at id (xs ++ ys) ≡ tasks_at id xs || tasks_at id ys
tasks_at-append id xs ys = any-append (λ (task : DirectoryTask). task.id == id) xs ys

pub All-append_left {ℓ κ} :
    {A : Type ℓ} (P : A → Type κ) (xs ys : List A) → All P (xs ++ ys) → All P xs × All P ys
All-append_left P [] ys h = (tt, h)
All-append_left P (x ∷ xs) ys h = let rest = All-append_left P xs ys h.1 in ((h.0, rest.0), rest.1)

keys_at-remove :
    (id other : ℕ) (ready : List (ℕ × DirectoryBatch))
    → other ≢ id
    → keys_at other (remove id ready) ≡ keys_at other ready
keys_at-remove id other [] n = refl
keys_at-remove id other ((key, batch) ∷ ready) n = ground (arith, keys_at-remove id other ready n)

All-remove :
    (P : ℕ × DirectoryBatch → Type 0) (id : ℕ) (ready : List (ℕ × DirectoryBatch))
    → All P ready
    → All P (remove id ready)
All-remove P id [] h = tt
All-remove P id ((key, batch) ∷ ready) h =
    if_elim (All P) (key == id) (remove id ready) ((key, batch) ∷ remove id ready)
      (λ e. All-remove P id ready h.1) (λ e. (h.0, All-remove P id ready h.1))

pub or_assoc : (a b c : Bool) → ((a || b) || c) ≡ (a || (b || c))
or_assoc true b c = refl
or_assoc false b c = refl

pub or_true : (a : Bool) → (a || true) ≡ true
or_true true = refl
or_true false = refl

or_false : (a : Bool) → (a || false) ≡ a
or_false true = refl
or_false false = refl

some_inj {ℓ} : {A : Type ℓ} {a b : A} → some a ≡ some b → a ≡ b
some_inj {a = a} e = ap (λ o. elim o [ none ↦ a | some x ↦ x ]) e

pub ==-false : (a b : ℕ) → a ≢ b → (a == b) ≡ false
==-false a b h = ground arith

-- A batch in the place of its task keeps every number present.
stored-present :
    (tasks : Bool) (id other : ℕ) (batch : DirectoryBatch) (ready : List (ℕ × DirectoryBatch))
    → ((id == other) || (tasks || keys_at other ready)) ≡ true
    → (tasks || keys_at other ((id, batch) ∷ remove id ready)) ≡ true
stored-present tasks id other batch ready h = elim (Bool-cases (id == other)) [
  | inl e ↦ rw e (or_true tasks)
  | inr e ↦
      let apart : other ≢ id = λ same. absurd (cc (e, (==_iff id other).1 (sym same))) in
      rw (e, keys_at-remove id other ready apart) (rw e at h)
]

running_first :
    (id : ℕ) (running queued : List DirectoryTask)
    → (running ≡ [] → queued ≡ [])
    → tasks_at id (running ++ queued) ≡ true
    → 0 < length running
running_first id [] queued filled here = let bad = rw (filled refl) at here in absurd (cc)
running_first id (task ∷ running) queued filled here = omega arith

lookup-none :
    (id : ℕ) (ready : List (ℕ × DirectoryBatch)) → lookup id ready ≡ none → keys_at id ready ≡ false
lookup-none id [] h = refl
lookup-none id ((key, batch) ∷ ready) h = elim (Bool-cases (key == id)) [
  | inl e ↦ let bad = rw (e, lookup) at h in absurd (cc)
  | inr e ↦ rw e (lookup-none id ready (rw (e, lookup) at h))
]

lookup-some :
    (read : Place → List Item) (assigned : ℕ → Place) (next_id id : ℕ)
    (ready : List (ℕ × DirectoryBatch)) (batch : DirectoryBatch)
    → All (BatchFits read assigned next_id) ready
    → lookup id ready ≡ some batch
    → batch ≡ read_batch read (assigned id)
lookup-some read assigned next_id id [] batch fits h = absurd (cc)
lookup-some read assigned next_id id ((key, first) ∷ ready) batch fits h =
    elim (Bool-cases (key == id)) [
      | inl e ↦
          let found = rw (e, lookup) at h in
          some_inj (sym found)
          ∙ fits.0.0
          ∙ ap (λ n. read_batch read (assigned n)) ((==_iff key id).0 e)
      | inr e ↦ lookup-some read assigned next_id id ready batch fits.1 (rw (e, lookup) at h)
    ]

-- Where a task is open, a worker runs.
some_running :
    (read : Place → List Item) (assigned : ℕ → Place) (s : OrderedScheduler) (id : ℕ)
    → IsGood read assigned s
    → tasks_at id (open_tasks s) ≡ true
    → 0 < length s.running
some_running read assigned s id good here = running_first id s.running s.queued good.filled here

module _ (world : World) (calm : IsCalm world) (read : Place → List Item)
    (assigned : ℕ → Place) where
  -- Good but for the filling of the workers.
  pub refill-IsGood :
      (s : OrderedScheduler)
      → IsIdle s
      → All (TaskFits assigned s.next_id) (open_tasks s)
      → All (BatchFits read assigned s.next_id) s.ready
      → IsGood read assigned (refill world read s)
  refill-IsGood s idle tasks batches =
      let r = refill_loop-Refilled world calm read s s.queued idle in
      record {
        idle = r.idle;
        tasks = rw (r.same, r.same_next) tasks;
        batches = rw (r.same_ready, r.same_next) batches;
        filled = r.filled;
      }

  pub refill-present :
      (s : OrderedScheduler) (id : ℕ)
      → IsIdle s
      → is_present (refill world read s) id ≡ is_present s id
  refill-present s id idle =
      let r = refill_loop-Refilled world calm read s s.queued idle in rw (r.same, r.same_ready) refl

  -- A wait that gives the batch of the directory that `id` stands for.
  abbrev pub Gets : ℕ → OrderedScheduler → Waited → Type 0
  Gets id s (got batch after) =
      (batch ≡ read_batch read (assigned id)) × Leaves read assigned id s after
  Gets id s (failed error) = ⊥
  Gets id s ended = ⊥
  Gets id s blocked = ⊥
  Gets id s panicked = ⊥

  Gets-trans :
      (id : ℕ) (s kept : OrderedScheduler) (w : Waited)
      → kept.next_id ≡ s.next_id
      → ((other : ℕ) → is_present s other ≡ true → is_present kept other ≡ true)
      → Gets id kept w
      → Gets id s w
  Gets-trans id s kept (got batch after) same present (e, leaves) = (
    e,
    record {
      good = leaves.good;
      next_same = leaves.next_same ∙ same;
      present = λ other n here. leaves.present other n (present other here);
    },
  )
  Gets-trans id s kept (failed error) same present h = h
  Gets-trans id s kept ended same present h = h
  Gets-trans id s kept blocked same present h = h
  Gets-trans id s kept panicked same present h = h

  error_or-Gets :
      (id : ℕ) (s r : OrderedScheduler) (other : Waited)
      → r.schedule_error ≡ none
      → Gets id s other
      → Gets id s (error_or world read r other)
  error_or-Gets id s r other e h = rw (e, error_or) h

  batch_of-calm :
      (s : OrderedScheduler) (place : Place)
      → s.cancelled ≡ false
      → batch_of world read s place ≡ read_batch read place
  batch_of-calm s place e = rw e refl

  module _ (s : OrderedScheduler) (good : IsGood read assigned s) (id : ℕ) where
    receive-Gets :
        (again : OrderedScheduler → Waited) (taken : Option (DirectoryTask × List DirectoryTask))
        → Taken (TaskFits assigned s.next_id) s.running taken
        → tasks_at id (open_tasks s) ≡ true
        → ((kept : OrderedScheduler)
            → IsGood read assigned kept
            → tasks_at id (open_tasks kept) ≡ true
            → suc (length (open_tasks kept)) ≡ length (open_tasks s)
            → Gets id kept (again kept))
        → Gets id s (receive world read again s id taken)
    receive-Gets again none taken here go = taken
    receive-Gets again (some (task, running)) (at, every, count) here go =
        let split = All-append_left (TaskFits assigned s.next_id) s.running s.queued good.tasks in
        let (fits, others) = every split.0 in
        let later : OrderedScheduler =
          tick world read (record s { running = running; outstanding = s.outstanding - 1 }) in
        let hl : IsIdle later = record {
          calm = rw (good.idle.calm, calm.cancels s.clock) refl;
          no_error = good.idle.no_error;
          counted = omega (arith, good.idle.counted, count);
          positive = good.idle.positive;
        } in
        let open_later = All-append (TaskFits assigned s.next_id) running s.queued others split.1 in
        let batch = batch_of world read s task.place in
        let whole : batch ≡ read_batch read (assigned task.id) =
          batch_of-calm s task.place good.idle.calm ∙ ap (read_batch read) (sym fits.0) in
        let stored : OrderedScheduler = record later {
          ready = (task.id, batch) ∷ remove task.id s.ready;
        } in
        let hs : IsIdle stored = record {
          calm = hl.calm;
          no_error = hl.no_error;
          counted = hl.counted;
          positive = hl.positive;
        } in
        let kept = refill world read stored in
        let good_kept = refill-IsGood stored hs open_later (
          (whole, fits.1),
          All-remove (BatchFits read assigned s.next_id) task.id s.ready good.batches,
        ) in
        let good_later = refill-IsGood later hl open_later good.batches in
        let step : (n : ℕ)
            → tasks_at n (open_tasks s) ≡ (task.id == n) || tasks_at n (running ++ s.queued) =
          λ n.
            rw (tasks_at-append n s.running s.queued, tasks_at-append n running s.queued, at n)
              (or_assoc (task.id == n) (tasks_at n running) (tasks_at n s.queued)) in
        let seen : (n : ℕ)
            → is_present s n ≡ true
            → ((task.id == n) || (tasks_at n (running ++ s.queued) || keys_at n s.ready)) ≡ true =
          λ n h.
            sym (or_assoc (task.id == n) (tasks_at n (running ++ s.queued)) (keys_at n s.ready))
            ∙ ap (λ b. b || keys_at n s.ready) (sym (step n))
            ∙ h in
        let filled_kept = refill_loop-Refilled world calm read stored stored.queued hs in
        let filled_later = refill_loop-Refilled world calm read later later.queued hl in
        if_elim (Gets id s) (world.panics s.clock) panicked _
          (λ p. absurd (cc (p, calm.panics s.clock)))
          (λ p.
            if_elim (Gets id s) (task.id == id) _ _
              (λ e.
                let same : task.id ≡ id = (==_iff task.id id).0 e in
                error_or-Gets id s (refill world read later) (got batch (refill world read later))
                  good_later.idle.no_error
                  (
                    whole ∙ ap (λ n. read_batch read (assigned n)) same,
                    record {
                      good = good_later;
                      next_same = filled_later.same_next;
                      present = λ other n here.
                          refill-present later other hl
                          ∙ (let there = seen other here in
                              rw (==-false task.id other (λ bad. n (sym bad ∙ same))) at there);
                    },
                  ))
              (λ e.
                if_elim (Gets id s) kept.cancelled _ _ (λ c. absurd (cc (c, good_kept.idle.calm)))
                  (λ c.
                    let left : tasks_at id (running ++ s.queued) ≡ true = rw (step id, e) at here in
                    let still : tasks_at id (open_tasks kept) ≡ true =
                      ap (tasks_at id) filled_kept.same ∙ left in
                    let fewer : suc (length (open_tasks kept)) ≡ length (open_tasks s) = omega (
                      arith,
                      ap length filled_kept.same,
                      length-append running s.queued,
                      length-append s.running s.queued,
                      count,
                    ) in
                    Gets-trans id s kept (again kept) filled_kept.same_next
                      (λ other there.
                        refill-present stored other hs
                        ∙ stored-present (tasks_at other (running ++ s.queued)) task.id other batch
                            s.ready (seen other there))
                      (go kept good_kept still fewer))))

  wait_loop-Gets :
      (fuel : ℕ) (s : OrderedScheduler) (id : ℕ)
      → IsGood read assigned s
      → tasks_at id (open_tasks s) ≡ true
      → length (open_tasks s) < fuel
      → Gets id s (wait_loop world read fuel s id)
  unfolding wait_loop
  wait_loop-Gets zero s id good here enough = absurd (omega (arith, enough))
  wait_loop-Gets (suc fuel) s id good here enough =
      receive-Gets s good id (λ kept. wait_loop world read fuel kept id) (chosen world read s)
        (take_at-Taken (TaskFits assigned s.next_id) (world.choice s.clock % length s.running)
          s.running (mod-lt (world.choice s.clock) (some_running read assigned s id good here)))
        here
        (λ kept good_kept still fewer.
          wait_loop-Gets fuel kept id good_kept still (omega (arith, fewer, enough)))

  -- A wait for a number that is present gives the batch of its directory, whichever worker is done first.
  pub wait_for-Gets :
      (s : OrderedScheduler) (id : ℕ)
      → IsGood read assigned s
      → is_present s id ≡ true
      → Gets id s (wait_for world read s id)
  unfolding wait_for
  wait_for-Gets s id good here = elim (Option-cases (lookup id s.ready)) [
    | inl n ↦
        let missing = lookup-none id s.ready n in
        let waiting : tasks_at id (open_tasks s) ≡ true =
          sym (or_false (tasks_at id (open_tasks s))) ∙ (rw missing at here) in
        rw (n, wait_for)
          (error_or-Gets id s s
            (wait_loop world read (suc (length s.running + length s.queued)) s id)
            good.idle.no_error
            (wait_loop-Gets (suc (length s.running + length s.queued)) s id good waiting
              (omega (arith, length-append s.running s.queued))))
    | inr (batch, found) ↦
        rw (found, wait_for)
          (
            lookup-some read assigned s.next_id id s.ready batch good.batches found,
            record {
              good = record {
                idle = record {
                  calm = good.idle.calm;
                  no_error = good.idle.no_error;
                  counted = good.idle.counted;
                  positive = good.idle.positive;
                };
                tasks = good.tasks;
                batches = All-remove (BatchFits read assigned s.next_id) id s.ready good.batches;
                filled = good.filled;
              };
              next_same = refl;
              present = λ other n there. rw (keys_at-remove id other s.ready n) there;
            },
          )
  ]
