-- ===== src/Walk/Ends/Collect.antt =====
-- The calls of a walker with a maximal depth (src/walk_iter.rs).
use weavatrix_scan.Common.{
  ℕ, zero, suc, ◌-◌, ◌≤◌, ◌<◌, ◌≡◌, refl, ap, Bool, true, false, ◌&&◌, not, Option, none, some,
  List, [], ◌∷◌, inr, if_elim, arith,
}
use weavatrix_scan.Text.{Bytes}
use weavatrix_scan.Walk.{WalkEntry, WalkOptions, Item}
use weavatrix_scan.Walk.Files.{FileSystem}
use weavatrix_scan.Walk.Walker.{Walker, schedule_pending_directory, is_none, Behavior}
use weavatrix_scan.Walk.Iterate.{
  take_root_entry, Result, after_step, after_schedule, after_deferred, next, collect, collect_step,
}
use weavatrix_scan.Walk.Construction.{with_behavior}
use weavatrix_scan.Walk.Made.{with_behavior-Made}
use weavatrix_scan.Walk.Steps.{root_step-keeps}
use weavatrix_scan.Walk.Ends.Light.{
  Light, light, LightResult, after_step-Light, after_schedule-Light,
}
use weavatrix_scan.Walk.Ends.Schedule.{schedule-Scheduled}
use weavatrix_scan.Walk.Ends.{dir_weight, deferred_weight, root_weight, weight, IsAbove}

LightResult-mono :
    (files : FileSystem) (limit a b : ℕ) (result : Result)
    → a ≤ b
    → LightResult files limit a result
    → LightResult files limit b result
LightResult-mono files limit a b none le h = h
LightResult-mono files limit a b (some (none, walker)) le h = h
LightResult-mono files limit a b (some (some item, walker)) le h = (h.0, omega (arith, h.1))

module _ (files : FileSystem) (limit : ℕ) (again : Walker → Result) (walker : Walker)
    (h_again : (after : Walker)
      → Light files limit (weight files limit walker) after
      → LightResult files limit (weight files limit walker) (again after)) where
  root-Light :
      walker.yield_root ≡ true
      → IsAbove limit walker
      → LightResult files limit
          (weight files limit walker)
          (after_step again (take_root_entry files walker))
  root-Light e h =
      let idle : Walker = record walker { yield_root = false } in
      let here : dir_weight files (limit - 0) walker.root ≡ dir_weight files limit walker.root =
        ap (λ n. dir_weight files n walker.root) (omega arith) in
      let heavy = ap (λ b. root_weight files limit b walker.root) e in
      after_step-Light files limit (weight files limit walker) again h_again
        (take_root_entry files walker)
        (root_step-keeps (light files limit (weight files limit walker)) files idle
          walker.root_file_type (h, omega (arith, here, heavy)))

  after_deferred-Light :
      (deferred : Option WalkEntry)
      → walker.deferred_entry ≡ deferred
      → IsAbove limit walker
      → LightResult files limit
          (weight files limit walker)
          (after_deferred files again walker deferred)
  after_deferred-Light (some entry) e h = (h, omega (arith, ap deferred_weight e))
  after_deferred-Light none e h =
      let scheduled = schedule-Scheduled files limit walker walker.pending_directory refl e h in
      if_elim (LightResult files limit (weight files limit walker)) walker.yield_root
        (after_step again (take_root_entry files walker))
        (after_schedule files again (schedule_pending_directory files walker))
        (λ root. root-Light root h)
        (λ e.
          after_schedule-Light files limit (weight files limit walker) again h_again
            (schedule_pending_directory files walker) scheduled.0 scheduled.1 scheduled.2)

next-Light :
    (files : FileSystem) (limit fuel : ℕ) (walker : Walker)
    → IsAbove limit walker
    → weight files limit walker < fuel
    → LightResult files limit (weight files limit walker) (next files fuel walker)
unfolding next
next-Light files limit zero walker h enough = absurd (omega (arith, enough))
next-Light files limit (suc fuel) walker h enough =
    if_elim (LightResult files limit (weight files limit walker)) walker.finished
      (some (none, walker)) (after_deferred files (next files fuel) walker walker.deferred_entry)
      (λ e. tt)
      (λ e.
        after_deferred-Light files limit (next files fuel) walker
          (λ after lighter.
            LightResult-mono files limit (weight files limit after) (weight files limit walker)
              (next files fuel after) (omega (arith, lighter.1))
              (next-Light files limit fuel after lighter.0 (omega (arith, lighter.1, enough))))
          walker.deferred_entry refl h)

collect_step-some :
    (files : FileSystem) (limit bound : ℕ) (rest : Walker → Option (List Item)) (result : Result)
    → LightResult files limit bound result
    → ((walker : Walker)
        → Light files limit bound walker
        → (items : List Item) × (rest walker ≡ some items))
    → (items : List Item) × (collect_step rest result ≡ some items)
collect_step-some files limit bound rest none h hr = absurd h
collect_step-some files limit bound rest (some (none, walker)) h hr = ([], refl)
collect_step-some files limit bound rest (some (some item, walker)) h hr =
    let (items, e) = hr walker h in (item ∷ items, rw (e, collect_step) refl)

collect-some :
    (files : FileSystem) (limit fuel : ℕ) (walker : Walker)
    → IsAbove limit walker
    → weight files limit walker < fuel
    → (items : List Item) × (collect files fuel walker ≡ some items)
unfolding collect
collect-some files limit zero walker h enough = absurd (omega (arith, enough))
collect-some files limit (suc fuel) walker h enough =
    collect_step-some files limit (weight files limit walker) (collect files fuel)
      (next files (suc fuel) walker) (next-Light files limit (suc fuel) walker h enough)
      (λ after lighter.
        collect-some files limit fuel after lighter.0 (omega (arith, lighter.1, enough)))

plain-false :
    (a b c d e f g : Bool) (max_depth : Option ℕ) (limit : ℕ)
    → max_depth ≡ some limit
    → (not a && not b && not c && is_none max_depth && d && e && f && g) ≡ false
plain-false a b c d e f g max_depth limit h =
    let shallow : is_none max_depth ≡ false = ap is_none h in ground arith

-- A walk with a maximal depth comes to its end: from the walker that is made for such options, on any
-- file system, whatever links it has, the calls of next yield a finite list of items, on every fuel
-- above the weight of the walker, which counts the entries down to that depth.
pub collect-ends :
    (files : FileSystem) (root : Bytes) (options : WalkOptions) (behavior : Behavior)
    (walker : Walker) (limit fuel : ℕ)
    → options.max_depth ≡ some limit
    → with_behavior files root options behavior ≡ inr walker
    → weight files limit walker < fuel
    → (items : List Item) × (collect files fuel walker ≡ some items)
collect-ends files root options behavior walker limit fuel deep made enough =
    collect-some files limit fuel walker
      (with_behavior-Made (IsAbove limit) files root options behavior walker
        (λ canonical metadata info.
          (deep, plain-false _ _ _ _ _ _ _ options.max_depth limit deep, tt, tt))
        made)
      enough
