-- ===== src/Cache.antt =====
-- src/cache.rs and src/watch.rs: the reusable evidence of files, and what a plan of the watcher drops.
pub mod Invalidation
use weavatrix_scan.Common.{
  ℕ, ◌-◌, Bool, true, false, not, ◌&&◌, ◌||◌, Option, none, some, List, [], ◌∷◌, ◌++◌, ◌==◌, any,
  retain, length, if◌then◌else◌,
}
use weavatrix_scan.Text.{Bytes, bytes, starts_with, text_eq}
use weavatrix_scan.Text.Order.{Texts, sort, dedup}
use weavatrix_scan.Path.{is_same_or_descendant, path_covered_by_prefixes, collapse_path_prefixes}
use weavatrix_scan.Report.{FileVersion, ScannedFile}

abbrev scan_cache_format_version : ℕ
scan_cache_format_version = 2

pub record ScanCacheEntry : Type 0 where
  pub relative : Bytes
  pub bytes : ℕ
  pub content_hash : Bytes
  pub content_fingerprint : Bytes
  pub version : FileVersion
  pub binary_checked : Bool

pub record ScanCache : Type 0 where
  pub format_version : ℕ
  pub root : Bytes
  pub entries : List ScanCacheEntry

abbrev entry_with : ScannedFile → Bytes → Option Bytes → Option ScanCacheEntry
entry_with file hash none = none
entry_with file hash (some fingerprint) = some (record {
  relative = file.relative;
  bytes = file.bytes;
  content_hash = hash;
  content_fingerprint = fingerprint;
  version = file.version;
  binary_checked = file.binary_checked;
})

-- The closure of `filter_map` in `from_report`.
unfoldable pub entry_of : ScannedFile → Option ScanCacheEntry
entry_of file = elim file.content_hash [
  | none ↦ none
  | some hash ↦
      if starts_with (bytes "sha256:") hash
      then entry_with file hash file.content_fingerprint
      else none
]

abbrev and_entry : Option ScanCacheEntry → List ScanCacheEntry → List ScanCacheEntry
and_entry none rest = rest
and_entry (some entry) rest = entry ∷ rest

abbrev entries_of : List ScannedFile → List ScanCacheEntry
entries_of [] = []
entries_of (file ∷ files) = and_entry (entry_of file) (entries_of files)

abbrev pub from_report : Bytes → List ScannedFile → ScanCache
from_report root files = record {
  format_version = scan_cache_format_version;
  root = root;
  entries = entries_of files;
}

abbrev is_compatible : ScanCache → Bytes → Bool
is_compatible cache root =
    (cache.format_version == scan_cache_format_version) && text_eq cache.root root

-- The cache without the entries under the paths, and the number of entries removed.
unfoldable pub invalidate : ScanCache → Texts → ScanCache × ℕ
invalidate cache relative_paths =
    let prefixes = collapse_path_prefixes relative_paths in
    let entries =
      retain (λ entry. not (path_covered_by_prefixes entry.relative prefixes)) cache.entries in
    (record cache { entries = entries }, length cache.entries - length entries)

pub record WatchPlan : Type 0 where
  pub changed : Texts
  pub removed : Texts
  pub full_rescan : Bool
  pub rejected_events : ℕ

-- `plan.invalidated()`.
abbrev pub invalidated : WatchPlan → Texts
invalidated plan = plan.changed ++ plan.removed

unfoldable invalidates_path : WatchPlan → Bytes → Bool
invalidates_path plan relative =
    any (λ prefix. is_same_or_descendant relative prefix) (invalidated plan)

unfoldable expand_removed : WatchPlan → Texts → Texts
expand_removed plan known =
    let prefixes = collapse_path_prefixes plan.removed in
    dedup (sort (retain (λ path. path_covered_by_prefixes path prefixes) known))

unfoldable pub apply_watch_plan : ScanCache → WatchPlan → ScanCache × ℕ
apply_watch_plan cache plan =
    if plan.full_rescan
    then (record cache { entries = [] }, length cache.entries)
    else invalidate cache (invalidated plan)
