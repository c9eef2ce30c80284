-- ===== src/Identity.antt =====
-- src/scan_identity.rs, src/scan_finalize.rs and src/portable_report.rs: what the hasher of a revision
-- is fed with.
pub mod Stream
pub mod Fields
pub mod Unambiguous
use weavatrix_scan.Common.{
  ℕ, zero, suc, ◌/◌, ◌%◌, Bool, true, false, Option, none, some, List, [], ◌∷◌, ◌++◌,
}
use weavatrix_scan.Text.{Bytes, bytes}
use weavatrix_scan.Report.{ScannedFile, IgnoreSourceKind, IgnoreSourceEvidence, ScanTermination}
use weavatrix_scan.Hash.{Hasher, new, write, finish}

-- `value.to_le_bytes()`, in `n` bytes.
unfoldable pub le_bytes : ℕ → ℕ → Bytes
le_bytes zero value = []
le_bytes (suc n) value = value % 256 ∷ le_bytes n (value / 256)

abbrev pub kind_byte : IgnoreSourceKind → ℕ
kind_byte IgnoreSourceKind.git_global = 1
kind_byte IgnoreSourceKind.git_exclude = 2
kind_byte IgnoreSourceKind.git_ignore = 3
kind_byte IgnoreSourceKind.dot_ignore = 4
kind_byte IgnoreSourceKind.custom = 5
kind_byte IgnoreSourceKind.explicit = 6
kind_byte IgnoreSourceKind.override = 7

abbrev pub termination_byte : ScanTermination → ℕ
termination_byte ScanTermination.max_entries = 1
termination_byte ScanTermination.max_total_bytes = 2
termination_byte ScanTermination.timeout = 3
termination_byte ScanTermination.cancelled = 4

unfoldable pub write_ignore_kind : Hasher → IgnoreSourceKind → Hasher
write_ignore_kind hasher kind = write hasher (kind_byte kind ∷ [])

unfoldable pub write_termination : Hasher → ScanTermination → Hasher
write_termination hasher termination = write hasher (termination_byte termination ∷ [])

-- `content_hash.unwrap_or("")`.
abbrev pub hash_or_empty : Option Bytes → Bytes
hash_or_empty none = []
hash_or_empty (some hash) = hash

unfoldable pub write_selected_file : Hasher → Bytes → ℕ → Option Bytes → Hasher
write_selected_file hasher relative size content_hash =
    let named = write (write hasher relative) (0 ∷ []) in
    let sized = write (write named (le_bytes 8 size)) (0 ∷ []) in
    write (write sized (hash_or_empty content_hash)) (0xff ∷ [])

-- The body of the loop in `RevisionBuilder::new`.
unfoldable pub write_source : Hasher → IgnoreSourceEvidence → Hasher
write_source hasher source =
    let kinded = write (write_ignore_kind hasher source.kind) (0 ∷ []) in
    let located = write (write kinded source.location) (0 ∷ []) in
    write (write located source.content_hash) (0xfe ∷ [])

unfoldable pub write_sources : Hasher → List IgnoreSourceEvidence → Hasher
write_sources hasher [] = hasher
write_sources hasher (source ∷ rest) = write_sources (write_source hasher source) rest

-- `b"scan-revision\x01"`.
abbrev pub revision_mark : Bytes
revision_mark = bytes "scan-revision" ++ 1 ∷ []

-- `RevisionBuilder::new`.
unfoldable pub new_revision : List IgnoreSourceEvidence → Hasher
new_revision sources = write_sources (write new revision_mark) sources

-- `RevisionBuilder::push`.
unfoldable pub push_file : Hasher → ScannedFile → Hasher
push_file revision file = write_selected_file revision file.relative file.bytes file.content_hash

unfoldable pub push_files : Hasher → List ScannedFile → Hasher
push_files revision [] = revision
push_files revision (file ∷ rest) = push_files (push_file revision file) rest

abbrev pub bool_byte : Bool → ℕ
bool_byte true = 1
bool_byte false = 0

abbrev pub write_optional_termination : Hasher → Option ScanTermination → Hasher
write_optional_termination hasher none = hasher
write_optional_termination hasher (some termination) = write_termination hasher termination

-- `RevisionBuilder::finish`.
unfoldable pub finish_revision : Hasher → Bool → Option ScanTermination → Bytes
finish_revision revision portable termination =
    finish (write_optional_termination (write revision (bool_byte portable ∷ [])) termination)

-- The revision that `finalize_report` computes.
unfoldable pub report_revision :
    List IgnoreSourceEvidence → List ScannedFile → Bool → Option ScanTermination → Bytes
report_revision sources files portable termination =
    finish_revision (push_files (new_revision sources) files) portable termination
