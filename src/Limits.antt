-- ===== src/Limits.antt =====
-- src/scan_limits.rs: the bounds on the entries that a scan visits and on the bytes that it selects.
pub mod Total
use weavatrix_scan.Common.{
  ℕ, zero, suc, ◌+◌, ◌/◌, ◌%◌, min, Bool, true, false, Option, none, some, List, [], ◌∷◌, ◌++◌, map,
  ◌==◌, ltb, leb, length, take, drop, if◌then◌else◌,
}
use weavatrix_scan.Text.{Bytes, bytes}
use weavatrix_scan.Text.Order.{text_leb}
use weavatrix_scan.Report.{
  saturating_add, ScannedFile, SkipKind, SkippedEntry, ScanReport, terminate, ScanTermination,
  max_entries, max_total_bytes, timeout, cancelled,
}

-- `before_next` and `external_termination`, for the state of the cancellation and of the clock.
unfoldable pub before_next : Bool → Bool → Option ℕ → ℕ → Option ScanTermination
before_next is_cancelled is_late limit entries =
    if is_cancelled then some cancelled else if is_late then some timeout else elim limit [
      | none ↦ none
      | some most ↦ if leb most entries then some max_entries else none
    ]

abbrev insert_file : ScannedFile → List ScannedFile → List ScannedFile
insert_file f [] = f ∷ []
insert_file f (g ∷ gs) =
    let rest = insert_file f gs in if text_leb f.relative g.relative then f ∷ g ∷ gs else g ∷ rest

-- `sort_unstable_by` of the paths, which are different for different files.
unfoldable pub sort_files : List ScannedFile → List ScannedFile
sort_files [] = []
sort_files (f ∷ fs) = insert_file f (sort_files fs)

-- The index at which `position` finds the first file that exceeds the limit, or the number of files.
unfoldable pub keep_loop : ℕ → ℕ → List ScannedFile → ℕ
keep_loop limit total [] = 0
keep_loop limit total (file ∷ files) =
    let next = saturating_add total file.bytes in
    let rest = keep_loop limit next files in if ltb limit next then 0 else suc rest

-- `{limit}` in decimal; a word of 64 bits has 20 digits at most.
unfoldable pub decimal : ℕ → ℕ → Bytes
decimal zero n = []
decimal (suc fuel) n =
    let front = decimal fuel (n / 10) in
    let digit : ℕ = b'0' + n % 10 in if ltb n 10 then digit ∷ [] else front ++ digit ∷ []

abbrev skip_of : ℕ → ScannedFile → SkippedEntry
skip_of limit file = record {
  relative = file.relative;
  kind = SkipKind.scan_limit;
  detail = some (bytes "maximum selected bytes: " ++ decimal 20 limit);
}

abbrev pub limited : ℕ → Bool → ScanReport → ScanReport
limited limit evidence_is_complete report =
    let files = sort_files report.files in
    let keep = keep_loop limit 0 files in
    let sorted = record report { files = files } in
    let cut = record report {
      files = take keep files;
      skipped =
          if evidence_is_complete
          then report.skipped ++ map (skip_of limit) (drop keep files)
          else report.skipped;
    } in
    if keep == length files then sorted else terminate max_total_bytes cut

unfoldable pub apply_total_bytes_limit : Option ℕ → Bool → ScanReport → ScanReport
apply_total_bytes_limit none evidence_is_complete report = report
apply_total_bytes_limit (some limit) evidence_is_complete report =
    limited limit evidence_is_complete report
