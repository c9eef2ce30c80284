-- ===== src/Report.antt =====
-- src/report/mod.rs and src/file_version.rs: the evidence of a selected file, and when two versions of
-- a file count as the same.
use weavatrix_scan.Common.{
  List, ◌+◌, ◌*◌, min, ℕ, Bool, true, false, ◌&&◌, Option, none, some, ◌==◌,
}
use weavatrix_scan.Text.{Bytes}

-- `u64::MAX`, which is `usize::MAX` too where pointers have 64 bits.
abbrev pub u64_max : ℕ
u64_max = 0xffff_ffff_ffff_ffff

abbrev pub saturating_add : ℕ → ℕ → ℕ
saturating_add a b = min (a + b) u64_max

abbrev pub saturating_mul : ℕ → ℕ → ℕ
saturating_mul a b = min (a * b) u64_max

pub record FileIdentity : Type 0 where
  pub file_system : ℕ
  pub file : ℕ

pub record FileVersion : Type 0 where
  pub modified_ns : Option ℕ
  pub changed_ns : Option ℕ
  pub identity : Option FileIdentity

pub record ScannedFile : Type 0 where
  pub absolute : Bytes
  pub relative : Bytes
  pub bytes : ℕ
  pub content_hash : Option Bytes
  pub content_fingerprint : Option Bytes
  pub version : FileVersion
  pub binary_checked : Bool

pub data SkipKind : Type 0 where
  binary file_system_boundary extension ignored io_error max_depth oversized path_escape : SkipKind
  standard_directory hidden override symlink symlink_loop scan_limit : SkipKind
  concurrent_modification : SkipKind

pub record SkippedEntry : Type 0 where
  pub relative : Bytes
  pub kind : SkipKind
  pub detail : Option Bytes

pub record ScanWarning : Type 0 where
  pub relative : Option Bytes
  pub message : Bytes

pub data IgnoreSourceKind : Type 0 where
  git_global git_exclude git_ignore dot_ignore custom explicit override : IgnoreSourceKind

pub record IgnoreSourceEvidence : Type 0 where
  pub kind : IgnoreSourceKind
  pub location : Bytes
  pub content_hash : Bytes

pub data ScanTermination : Type 0 where
  max_entries max_total_bytes timeout cancelled : ScanTermination

pub record ScanCacheStats : Type 0 where
  pub reused_hashes : ℕ
  pub content_reads : ℕ
  pub fingerprint_reads : ℕ

pub record ScanDescriptor : Type 0 where
  pub version : ℕ
  pub policy : Bytes

pub record ScanReport : Type 0 where
  pub root : Bytes
  pub files : List ScannedFile
  pub skipped : List SkippedEntry
  pub warnings : List ScanWarning
  pub ignore_sources : List IgnoreSourceEvidence
  pub revision : Bytes
  pub descriptor : ScanDescriptor
  pub complete : Bool
  pub termination : Option ScanTermination
  pub portable : Bool
  pub cache : ScanCacheStats
  pub record_skipped : Bool

-- `ScanReport::terminate`: the first reason stays.
abbrev pub terminate : ScanTermination → ScanReport → ScanReport
terminate reason report = record report {
  complete = false;
  termination = elim report.termination [ none ↦ some reason | some earlier ↦ some earlier ];
}

abbrev pub identity_eq : FileIdentity → FileIdentity → Bool
identity_eq a b = (a.file_system == b.file_system) && (a.file == b.file)

-- Two values that are both known have to agree.
unfoldable pub optional_equal {ℓ} : {A : Type ℓ} → (A → A → Bool) → Option A → Option A → Bool
optional_equal same none current = true
optional_equal same (some previous) none = true
optional_equal same (some previous) (some current) = same previous current

-- `previous.modified_ns.is_some() && previous.modified_ns == current.modified_ns`.
abbrev both_known : Option ℕ → Option ℕ → Bool
both_known none current = false
both_known (some previous) none = false
both_known (some previous) (some current) = previous == current

unfoldable pub reusable : FileVersion → FileVersion → Bool
reusable previous current =
    both_known previous.modified_ns current.modified_ns
    && (optional_equal (λ a b. a == b) previous.changed_ns current.changed_ns
        && optional_equal identity_eq previous.identity current.identity)
