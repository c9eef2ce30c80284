-- ===== src/Witnesses/Reports.antt =====
-- The theorems about bounded reads and about the identity of reports at concrete inputs.
use weavatrix_scan.Common.{
  ℕ, zero, ◌<◌, ◌≡◌, refl, sym, ap, Bool, ◌&&◌, ltb, true, suc, false, Option, none, some, [], ◌∷◌,
  ◌++◌, ◌⊎◌, inr, take, drop, take-append-drop, arith, map,
}
use weavatrix_scan.Text.{Bytes, bytes}
use weavatrix_scan.Report.{ScannedFile, IgnoreSourceEvidence, git_ignore, timeout}
use weavatrix_scan.Hash.Compress.{words}
use weavatrix_scan.Hash.{hex_words}
use weavatrix_scan.Hash.Padding.{sha256}
use weavatrix_scan.Identity.{report_revision}
use weavatrix_scan.Identity.Stream.{encoded, report_revision-sha256}
use weavatrix_scan.Identity.Fields.{IsText}
use weavatrix_scan.Identity.Unambiguous.{IsFile, IsSource, identified, encoded_inj}
use weavatrix_scan.Content.{BoundedReadLimits, Interrupt, read_bounded}
use weavatrix_scan.Content.Prefix.{collect, Gives, Delivers, read_bounded-Delivers}

-- A reader of a text in memory.
abbrev slice_read : Bytes → ℕ → ℕ ⊎ (Bytes × Bytes)
slice_read left count = inr (take count left, drop count left)

slice_read-Gives :
    (left : Bytes) (count : ℕ)
    → 0 < count
    → Gives {E = ℕ} (λ (t : Bytes). t) left (slice_read left count)
slice_read-Gives left zero h = absurd (omega arith)
slice_read-Gives [] (suc n) h = refl
slice_read-Gives (b ∷ bs) (suc n) h = ap (λ t. b ∷ t) (sym (take-append-drop n bs))

abbrev never : ℕ → Option Interrupt
never round = none

abbrev three_of_five : BoundedReadLimits
three_of_five = record { expected_bytes = 3; max_content_bytes = 8 }

read_bounded-Delivers_example :
    Delivers
      (bytes "hello")
      3
      (read_bounded slice_read (collect {E = ℕ}) never 2 three_of_five (bytes "hello") [])
read_bounded-Delivers_example =
    read_bounded-Delivers slice_read never 2 three_of_five (λ (t : Bytes). t) (bytes "hello")
      slice_read-Gives (omega arith) (omega arith)

abbrev main_file : ScannedFile
main_file = record {
  absolute = bytes "/r/main.rs";
  relative = bytes "main.rs";
  bytes = 4;
  content_hash = none;
  content_fingerprint = none;
  version = record { modified_ns = none; changed_ns = none; identity = none };
  binary_checked = false;
}

-- The same file with an empty hash.
abbrev main_file_hashed : ScannedFile
main_file_hashed = record {
  absolute = bytes "/r/main.rs";
  relative = bytes "main.rs";
  bytes = 4;
  content_hash = some [];
  content_fingerprint = none;
  version = record { modified_ns = none; changed_ns = none; identity = none };
  binary_checked = false;
}

abbrev ignore_file : IgnoreSourceEvidence
ignore_file = record {
  kind = git_ignore;
  location = bytes ".gitignore";
  content_hash = bytes "sha256:0";
}

report_revision-sha256_example :
    report_revision (ignore_file ∷ []) (main_file ∷ []) true (some timeout)
    ≡ bytes "sha256:"
      ++ hex_words
          (words (sha256 (encoded (ignore_file ∷ []) (main_file ∷ []) true (some timeout))))
report_revision-sha256_example =
    report_revision-sha256 (ignore_file ∷ []) (main_file ∷ []) true (some timeout)

-- The test that a byte string is a text.
abbrev text_test : Bytes → Bool
text_test [] = true
text_test (b ∷ bs) = ltb 0 b && (ltb b 0xfe && text_test bs)

is_text : (t : Bytes) → text_test t ≡ true → IsText t
is_text [] h = tt
is_text (b ∷ bs) h = ((ground (arith), ground (arith)), is_text bs (ground (arith)))

main_file-IsFile : IsFile main_file
main_file-IsFile = record { path = is_text main_file.relative refl; size = omega arith; hash = tt }

main_file_hashed-IsFile : IsFile main_file_hashed
main_file_hashed-IsFile = record {
  path = is_text main_file.relative refl;
  size = omega arith;
  hash = tt;
}

ignore_file-IsSource : IsSource ignore_file
ignore_file-IsSource = record {
  place = is_text ignore_file.location refl;
  hash = is_text ignore_file.content_hash refl;
  long = omega arith;
}

encoded_inj_example :
    (ignore_file ∷ [] ≡ ignore_file ∷ [])
    × (map identified (main_file ∷ []) ≡ map identified (main_file_hashed ∷ []))
    × (true ≡ true)
    × (some timeout ≡ some timeout)
encoded_inj_example =
    encoded_inj (ignore_file ∷ []) (ignore_file ∷ []) (main_file ∷ []) (main_file_hashed ∷ []) true
      true (some timeout) (some timeout) (ignore_file-IsSource, tt) (ignore_file-IsSource, tt)
      (main_file-IsFile, tt) (main_file_hashed-IsFile, tt) refl
