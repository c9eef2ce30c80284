-- ===== src/Cache/Invalidation.antt =====
-- Which entries of a cache survive (src/cache.rs).
use weavatrix_scan.Common.{
  ◌+◌, ◌-◌, ◌≡◌, refl, ap, ◌∙◌, Bool, true, false, not, ◌||◌, any-append, List, [], ◌∷◌, any,
  retain, length, arith, Bool-cases, inl, inr, if◌then◌else◌,
}
use weavatrix_scan.Text.Order.{Texts}
use weavatrix_scan.Path.{path_covered_by_prefixes, collapse_path_prefixes}
use weavatrix_scan.Path.Cover.{is_under}
use weavatrix_scan.Path.Collapse.{collapse_path_prefixes-covers}
use weavatrix_scan.Cache.{
  ScanCache, ScanCacheEntry, WatchPlan, invalidate, invalidated, apply_watch_plan,
}

retain_ext {ℓ} :
    {A : Type ℓ} (f g : A → Bool) (xs : List A) → ((x : A) → f x ≡ g x) → retain f xs ≡ retain g xs
retain_ext f g xs h = λ i. retain (λ x. h x i) xs

-- What is kept and what is not make up the list.
length-retain {ℓ} :
    {A : Type ℓ} (f : A → Bool) (xs : List A)
    → length xs ≡ length (retain f xs) + length (retain (λ x. not (f x)) xs)
length-retain f [] = refl
length-retain f (x ∷ xs) = elim (Bool-cases (f x)) [
  | inl e ↦ rw (e, retain) (omega (arith, length-retain f xs))
  | inr e ↦ rw (e, retain) (omega (arith, length-retain f xs))
]

-- The entries that lie under none of the paths, and those that lie under one.
abbrev surviving : Texts → List ScanCacheEntry → List ScanCacheEntry
surviving paths entries = retain (λ entry. not (any (is_under entry.relative) paths)) entries

abbrev dropped : Texts → List ScanCacheEntry → List ScanCacheEntry
dropped paths entries = retain (λ entry. not (not (any (is_under entry.relative) paths))) entries

invalidate_lem :
    (cache : ScanCache) (paths : Texts)
    → invalidate cache paths ≡ (
      record cache { entries = surviving paths cache.entries },
      length (dropped paths cache.entries),
    )
unfolding invalidate
invalidate_lem cache paths =
    let same : retain
          (λ entry. not (path_covered_by_prefixes entry.relative (collapse_path_prefixes paths)))
          cache.entries
        ≡ surviving paths cache.entries =
      retain_ext _ _ cache.entries
        (λ entry. ap not (collapse_path_prefixes-covers entry.relative paths)) in
    let counted : length cache.entries - length (surviving paths cache.entries)
        ≡ length (dropped paths cache.entries) =
      omega
        (arith, length-retain (λ entry. not (any (is_under entry.relative) paths)) cache.entries) in
    rw same (ap (λ n. (record cache { entries = surviving paths cache.entries }, n)) counted)

-- The entry is a path that the plan names as changed or as removed, or lies under one.
abbrev pub is_stale : WatchPlan → ScanCacheEntry → Bool
is_stale plan entry =
    any (is_under entry.relative) plan.changed || any (is_under entry.relative) plan.removed

double_negation : (b : Bool) → not (not b) ≡ b
double_negation true = refl
double_negation false = refl

-- After a plan without a full rescan, the cache keeps exactly the entries that lie under no changed and
-- no removed path, in their order, and the number of the others is returned. A full rescan empties the
-- cache and returns the number of its entries.
pub apply_watch_plan_lem :
    (cache : ScanCache) (plan : WatchPlan)
    → apply_watch_plan cache plan ≡ (
        if plan.full_rescan then (record cache { entries = [] }, length cache.entries) else (
          record cache { entries = retain (λ entry. not (is_stale plan entry)) cache.entries },
          length (retain (is_stale plan) cache.entries),
        ))
unfolding apply_watch_plan
apply_watch_plan_lem cache plan =
    let named : (entry : ScanCacheEntry)
        → any (is_under entry.relative) (invalidated plan) ≡ is_stale plan entry =
      λ entry. any-append (is_under entry.relative) plan.changed plan.removed in
    rw
      (
        invalidate_lem cache (invalidated plan),
        retain_ext _ _ cache.entries (λ entry. ap not (named entry)),
        retain_ext _ _ cache.entries (λ entry. double_negation _ ∙ named entry),
      )
      refl
