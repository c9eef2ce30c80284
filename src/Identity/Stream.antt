-- ===== src/Identity/Stream.antt =====
-- The bytes behind a revision (src/scan_identity.rs, src/scan_finalize.rs).
use mathlib.Core.List.{append_assoc, append-nil}
use weavatrix_scan.Common.{◌≡◌, refl, sym, ap, ◌∙◌, Bool, Option, none, some, List, [], ◌∷◌, ◌++◌}
use weavatrix_scan.Text.{Bytes, bytes}
use weavatrix_scan.Report.{ScannedFile, IgnoreSourceEvidence, ScanTermination}
use weavatrix_scan.Hash.{Hasher, new, write, hex_words}
use weavatrix_scan.Hash.Compress.{words}
use weavatrix_scan.Hash.Padding.{sha256}
use weavatrix_scan.Hash.Digest.{Fed, write-Fed, new-Fed, finish-Fed}
use weavatrix_scan.Identity.{
  le_bytes, kind_byte, termination_byte, bool_byte, hash_or_empty, revision_mark, write_ignore_kind,
  write_termination, write_selected_file, write_source, write_sources, new_revision, push_file,
  push_files, write_optional_termination, finish_revision, report_revision,
}

-- The fields of a file, in front of what follows.
abbrev pub put_file : ScannedFile → Bytes → Bytes
put_file file tail =
    file.relative
    ++ 0 ∷ (le_bytes 8 file.bytes ++ 0 ∷ (hash_or_empty file.content_hash ++ 0xff ∷ tail))

abbrev pub put_source : IgnoreSourceEvidence → Bytes → Bytes
put_source source tail =
    kind_byte source.kind ∷ 0 ∷ (source.location ++ 0 ∷ (source.content_hash ++ 0xfe ∷ tail))

abbrev pub put_files : List ScannedFile → Bytes → Bytes
put_files [] tail = tail
put_files (file ∷ rest) tail = put_file file (put_files rest tail)

abbrev pub put_sources : List IgnoreSourceEvidence → Bytes → Bytes
put_sources [] tail = tail
put_sources (source ∷ rest) tail = put_source source (put_sources rest tail)

abbrev pub put_end : Bool → Option ScanTermination → Bytes
put_end portable none = bool_byte portable ∷ []
put_end portable (some termination) = bool_byte portable ∷ termination_byte termination ∷ []

-- The text that a revision identifies.
abbrev pub encoded :
    List IgnoreSourceEvidence → List ScannedFile → Bool → Option ScanTermination → Bytes
encoded sources files portable termination =
    revision_mark ++ put_sources sources (put_files files (put_end portable termination))

-- The hasher was given all of a text but this tail.
abbrev LeftOver : Hasher → Bytes → Bytes → Type 0
LeftOver h whole tail = (text : Bytes) × Fed h text × (text ++ tail ≡ whole)

write-LeftOver :
    (h : Hasher) (whole input tail : Bytes)
    → LeftOver h whole (input ++ tail)
    → LeftOver (write h input) whole tail
write-LeftOver h whole input tail (text, fed, e) =
    (text ++ input, write-Fed h text input fed, append_assoc text input tail ∙ e)

push_file-LeftOver :
    (h : Hasher) (file : ScannedFile) (whole tail : Bytes)
    → LeftOver h whole (put_file file tail)
    → LeftOver (push_file h file) whole tail
unfolding push_file write_selected_file
push_file-LeftOver h file whole tail l = write-LeftOver _ whole (0xff ∷ []) tail (
    write-LeftOver _ whole (hash_or_empty file.content_hash) _ (
      write-LeftOver _ whole (0 ∷ []) _ (
        write-LeftOver _ whole (le_bytes 8 file.bytes) _
          (write-LeftOver _ whole (0 ∷ []) _ (write-LeftOver h whole file.relative _ l)))))

write_source-LeftOver :
    (h : Hasher) (source : IgnoreSourceEvidence) (whole tail : Bytes)
    → LeftOver h whole (put_source source tail)
    → LeftOver (write_source h source) whole tail
unfolding write_source write_ignore_kind
write_source-LeftOver h source whole tail l = write-LeftOver _ whole (0xfe ∷ []) tail (
    write-LeftOver _ whole source.content_hash _ (
      write-LeftOver _ whole (0 ∷ []) _ (
        write-LeftOver _ whole source.location _ (
          write-LeftOver _ whole (0 ∷ []) _
            (write-LeftOver h whole (kind_byte source.kind ∷ []) _ l)))))

push_files-LeftOver :
    (files : List ScannedFile) (h : Hasher) (whole tail : Bytes)
    → LeftOver h whole (put_files files tail)
    → LeftOver (push_files h files) whole tail
unfolding push_files
push_files-LeftOver [] h whole tail l = l
push_files-LeftOver (file ∷ rest) h whole tail l =
    push_files-LeftOver rest (push_file h file) whole tail (push_file-LeftOver h file whole _ l)

write_sources-LeftOver :
    (sources : List IgnoreSourceEvidence) (h : Hasher) (whole tail : Bytes)
    → LeftOver h whole (put_sources sources tail)
    → LeftOver (write_sources h sources) whole tail
unfolding write_sources
write_sources-LeftOver [] h whole tail l = l
write_sources-LeftOver (source ∷ rest) h whole tail l =
    write_sources-LeftOver rest (write_source h source) whole tail
      (write_source-LeftOver h source whole _ l)

-- Nothing is left over behind the termination.
end-LeftOver :
    (h : Hasher) (portable : Bool) (termination : Option ScanTermination) (whole : Bytes)
    → LeftOver h whole (put_end portable termination)
    → LeftOver (write_optional_termination (write h (bool_byte portable ∷ [])) termination) whole []
unfolding write_termination
end-LeftOver h portable none whole l = write-LeftOver h whole (bool_byte portable ∷ []) [] l
end-LeftOver h portable (some termination) whole l =
    write-LeftOver _ whole (termination_byte termination ∷ []) []
      (write-LeftOver h whole (bool_byte portable ∷ []) _ l)

-- The revision of a report is SHA-256 of one text: a mark, the ignore sources and the selected files in
-- their order, each with its fields and their separators, the portability flag and the termination.
pub report_revision-sha256 :
    (sources : List IgnoreSourceEvidence) (files : List ScannedFile) (portable : Bool)
    (termination : Option ScanTermination)
    → report_revision sources files portable termination
      ≡ bytes "sha256:" ++ hex_words (words (sha256 (encoded sources files portable termination)))
unfolding report_revision finish_revision new_revision
report_revision-sha256 sources files portable termination =
    let whole = encoded sources files portable termination in
    let started = write-LeftOver new whole revision_mark _ ([], new-Fed, refl) in
    let sourced = write_sources-LeftOver sources (write new revision_mark) whole _ started in
    let filed =
      push_files-LeftOver files (write_sources (write new revision_mark) sources) whole _ sourced in
    let (text, fed, e) = end-LeftOver _ portable termination whole filed in
    finish-Fed _ text fed
    ∙ ap (λ t. bytes "sha256:" ++ hex_words (words (sha256 t))) (sym (append-nil text) ∙ e)
