-- ===== src/Delta.antt =====
-- src/delta.rs: the changes between two manifests whose files are sorted by their paths.
pub mod Lookup
pub mod Merge
use weavatrix_scan.Common.{
  ℕ, zero, suc, ◌+◌, ◌-◌, ◌^◌, min, Bool, true, false, not, ◌&&◌, Option, none, some, List, [], ◌∷◌,
  ◌++◌, ◌==◌, length,
}
use weavatrix_scan.Text.{text_eq, Bytes}
use weavatrix_scan.Text.Order.{text_ltb}
use weavatrix_scan.Report.{u64_max, ScannedFile, reusable}

pub record ModifiedFile : Type 0 where
  pub previous : ScannedFile
  pub current : ScannedFile

-- The fields of `ScanDelta` that `merge_files` changes.
pub record Merged : Type 0 where
  pub added : List ScannedFile
  pub removed : List ScannedFile
  pub modified : List ModifiedFile
  pub unchanged : ℕ

abbrev same_hash : Option Bytes → Option Bytes → Bool → Bool
same_hash (some previous) (some current) otherwise = text_eq previous current
same_hash (some previous) none otherwise = otherwise
same_hash none current otherwise = otherwise

unfoldable pub same_content : ScannedFile → ScannedFile → Bool
same_content previous current =
    (previous.bytes == current.bytes)
    && same_hash previous.content_hash current.content_hash
        (reusable previous.version current.version)

abbrev pub push_added : Merged → ScannedFile → Merged
push_added delta file = record delta { added = delta.added ++ file ∷ [] }

abbrev pub push_removed : Merged → ScannedFile → Merged
push_removed delta file = record delta { removed = delta.removed ++ file ∷ [] }

-- The arm for a path that both manifests have, by whether the contents are the same.
abbrev pub push_pair : Bool → Merged → ScannedFile → ScannedFile → Merged
push_pair true delta before after = record delta { unchanged = min (delta.unchanged + 1) u64_max }
push_pair false delta before after = record delta {
  modified = delta.modified ++ record { previous = before; current = after } ∷ [];
}

abbrev pub push_common : Merged → ScannedFile → ScannedFile → Merged
push_common delta before after = push_pair (same_content before after) delta before after

-- The `while` loop over what is left of both lists. Each round takes a file off one of them, so their
-- lengths together are fuel enough (Delta/Merge).
unfoldable pub merge_loop : ℕ → List ScannedFile → List ScannedFile → Merged → Merged
merge_loop zero previous current delta = delta
merge_loop (suc fuel) [] [] delta = delta
merge_loop (suc fuel) [] (after ∷ current) delta =
    merge_loop fuel [] current (push_added delta after)
merge_loop (suc fuel) (before ∷ previous) [] delta =
    merge_loop fuel previous [] (push_removed delta before)
merge_loop (suc fuel) (before ∷ previous) (after ∷ current) delta =
    elim (text_eq before.relative after.relative) [
      | true ↦ merge_loop fuel previous current (push_common delta before after)
      | false ↦ elim (text_ltb before.relative after.relative) [
        | true ↦ merge_loop fuel previous (after ∷ current) (push_removed delta before)
        | false ↦ merge_loop fuel (before ∷ previous) current (push_added delta after)
      ]
    ]

unfoldable pub merge_files : List ScannedFile → List ScannedFile → Merged → Merged
merge_files previous current delta =
    merge_loop (length previous + length current) previous current delta

abbrev pub no_changes : Merged
no_changes = record { added = []; removed = []; modified = []; unchanged = 0 }
