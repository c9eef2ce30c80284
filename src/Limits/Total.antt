-- ===== src/Limits/Total.antt =====
-- The files that src/scan_limits.rs keeps within a limit on their bytes.
use mathlib.Core.Path.{subst}
use mathlib.Core.List.{append-nil}
use weavatrix_scan.Common.{
  take-ge, ℕ, ◌+◌, ◌≤◌, ◌<◌, ◌≡◌, refl, ◌⊎◌, inl, inr, Bool, false, some, List, [], ◌∷◌, ◌++◌, ◌==◌,
  ==_iff, ltb, length, take, drop, arith, Bool-cases, take-append-drop,
}
use weavatrix_scan.Report.{ScanReport, saturating_add, u64_max, ScannedFile}
use weavatrix_scan.Limits.{keep_loop, sort_files, limited, apply_total_bytes_limit}

abbrev pub total_bytes : List ScannedFile → ℕ
total_bytes [] = 0
total_bytes (file ∷ files) = file.bytes + total_bytes files

-- The files cut off are none, or the first of them does not fit in anymore.
abbrev pub Fits : ℕ → ℕ → List ScannedFile → Type 0
Fits limit total [] = Unit
Fits limit total (file ∷ files) = limit < total + file.bytes

keep_loop_lem :
    (limit total : ℕ) (files : List ScannedFile)
    → limit < u64_max
    → total ≤ limit
    → (total + total_bytes (take (keep_loop limit total files) files) ≤ limit)
      × Fits limit
          (total + total_bytes (take (keep_loop limit total files) files))
          (drop (keep_loop limit total files) files)
unfolding keep_loop
keep_loop_lem limit total [] h t = (omega arith, tt)
keep_loop_lem limit total (file ∷ files) h t =
    let next = saturating_add total file.bytes in
    elim (Bool-cases (ltb limit next)) [
      | inl e ↦ rw (e, keep_loop) (ground arith, ground arith)
      | inr e ↦
          let exact : next ≡ total + file.bytes = ground arith in
          let rest = keep_loop limit next files in
          let kept = total_bytes (take rest files) in
          let sum : next + kept ≡ total + (file.bytes + kept) = omega (arith, exact) in
          let (low, fit) = keep_loop_lem limit next files h (ground arith) in
          rw (e, keep_loop)
            (omega (arith, low, sum), subst (λ t. Fits limit t (drop rest files)) sum fit)
    ]

-- A report with all the files kept, or one cut off behind those that are kept.
abbrev pub Cut : ScanReport → ℕ → List ScannedFile → Type 0
Cut report limit files =
    (cut : List ScannedFile) × (report.files ++ cut ≡ files)
    × (total_bytes report.files ≤ limit)
    × Fits limit (total_bytes report.files) cut
    × ((cut ≡ []) ⊎ (report.complete ≡ false))

limited-Cut :
    (limit : ℕ) (evidence : Bool) (report : ScanReport)
    → limit < u64_max
    → Cut (limited limit evidence report) limit (sort_files report.files)
limited-Cut limit evidence report h =
    let files = sort_files report.files in
    let keep = keep_loop limit 0 files in
    let (low, fit) = keep_loop_lem limit 0 files h (omega arith) in
    let start : 0 + total_bytes (take keep files) ≡ total_bytes (take keep files) = omega arith in
    let fit' : Fits limit (total_bytes (take keep files)) (drop keep files) =
      subst (λ t. Fits limit t (drop keep files)) start fit in
    elim (Bool-cases (keep == length files)) [
      | inl e ↦
          let all : keep ≡ length files = (==_iff keep (length files)).0 e in
          let whole : take keep files ≡ files = take-ge keep files (omega (arith, all)) in
          rw (e, limited)
            (
              [],
              append-nil files,
              subst (λ t. total_bytes t ≤ limit) whole (omega (arith, low)),
              tt,
              inl refl,
            )
      | inr e ↦
          rw (e, limited)
            (drop keep files, take-append-drop keep files, omega (arith, low), fit', inr refl)
    ]

-- With a limit on the bytes below 2^64 - 1, the selected files are those in front in the order of their
-- paths, together within the limit. If any were cut off, the first of them would have exceeded it, and
-- the report is marked as incomplete.
pub apply_total_bytes_limit-Cut :
    (limit : ℕ) (evidence_is_complete : Bool) (report : ScanReport)
    → limit < u64_max
    → Cut
        (apply_total_bytes_limit (some limit) evidence_is_complete report)
        limit
        (sort_files report.files)
unfolding apply_total_bytes_limit
apply_total_bytes_limit-Cut limit evidence report h = limited-Cut limit evidence report h
